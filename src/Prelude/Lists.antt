-- ===== src/Prelude/Lists.antt =====
-- Lists over the native numbers, and tests of membership.
use Prim.Native.Nat.{ℕ, zero, suc, ◌+◌, ◌≤◌}
use mathlib.Core.Path.{◌≡◌, refl}
use mathlib.Core.Logic.{◌↔◌}
use mathlib.Core.Bool.{Bool, true, false, ◌||◌, ◌&&◌}
use mathlib.Core.List.{List, [], ◌∷◌, ◌++◌}
use native.Mathlib.Omega.{arith}
use local_ai_server.Prelude.Tests.{Eq, if◌then◌else◌, ◌==◌}

module _ {ℓ} {A : Type ℓ} where
  abbrev pub length : List A → ℕ
  length [] = 0
  length (x ∷ xs) = suc (length xs)

  abbrev pub take : ℕ → List A → List A
  take zero xs = []
  take (suc n) [] = []
  take (suc n) (x ∷ xs) = x ∷ take n xs

  abbrev pub drop : ℕ → List A → List A
  drop zero xs = xs
  drop (suc n) [] = []
  drop (suc n) (x ∷ xs) = drop n xs

  abbrev pub is_empty : List A → Bool
  is_empty [] = true
  is_empty (x ∷ xs) = false

  -- `[x for x in xs if p(x)]`
  unfoldable pub keep_if : (A → Bool) → List A → List A
  keep_if p [] = []
  keep_if p (x ∷ xs) = if p x then x ∷ keep_if p xs else keep_if p xs

  pub length-append : (xs ys : List A) → length (xs ++ ys) ≡ length xs + length ys
  length-append [] ys = omega arith
  length-append (x ∷ xs) ys = omega (arith, length-append xs ys)

  pub length-keep_if-le : (p : A → Bool) (xs : List A) → length (keep_if p xs) ≤ length xs
  unfolding keep_if
  length-keep_if-le p [] = omega arith
  length-keep_if-le p (x ∷ xs) = ground (arith, length-keep_if-le p xs)

  -- Every element satisfies `P`.
  abbrev pub All {κ} : (A → Type κ) → List A → Type κ
  All P [] = Unit
  All P (x ∷ xs) = P x × All P xs

  pub All-keep_if : (p : A → Bool) (xs : List A) → All (λ x. p x ≡ true) (keep_if p xs)
  unfolding keep_if
  All-keep_if p [] = tt
  All-keep_if p (x ∷ xs) = ground (arith, All-keep_if p xs)

module _ {ℓ κ} {A : Type ℓ} (P : A → Type κ) where
  pub All-append : (xs ys : List A) → All P xs → All P ys → All P (xs ++ ys)
  All-append [] ys h k = k
  All-append (x ∷ xs) ys h k = (h.0, All-append xs ys h.1 k)

  -- A sublist keeps what holds of all.
  pub All-keep_if_of : (p : A → Bool) (xs : List A) → All P xs → All P (keep_if p xs)
  unfolding keep_if
  All-keep_if_of p [] all = tt
  All-keep_if_of p (x ∷ xs) all =
      elim (p x) as (λ b. All P (if b then x ∷ keep_if p xs else keep_if p xs)) [
        | true ↦ (all.0, All-keep_if_of p xs all.1)
        | false ↦ All-keep_if_of p xs all.1
      ]

module _ {ℓ} {A : Type ℓ} ⦃e : Eq A⦄ where
  unfoldable pub contains : List A → A → Bool
  contains [] a = false
  contains (x ∷ xs) a = x == a || contains xs a

  pub contains-append :
      (xs ys : List A) (a : A) → contains (xs ++ ys) a ≡ (contains xs a || contains ys a)
  unfolding contains
  contains-append [] ys a = refl
  contains-append (x ∷ xs) ys a = ground (arith, contains-append xs ys a)

  -- xs.count(t)
  unfoldable pub occurrences : A → List A → ℕ
  occurrences t [] = 0
  occurrences t (x ∷ xs) = (if x == t then 1 else 0) + occurrences t xs

  pub occurrences-absent : (t : A) (xs : List A) → contains xs t ≡ false → occurrences t xs ≡ 0
  unfolding occurrences contains
  occurrences-absent t [] h = refl
  occurrences-absent t (x ∷ xs) h = ground (arith, occurrences-absent t xs)

  pub occurrences-append :
      (t : A) (xs ys : List A) → occurrences t (xs ++ ys) ≡ occurrences t xs + occurrences t ys
  unfolding occurrences
  occurrences-append t [] ys = omega arith
  occurrences-append t (x ∷ xs) ys = omega (arith, occurrences-append t xs ys)

-- Lists of keys are keys.
module _ {ℓ} {A : Type ℓ} ⦃e : Eq A⦄ where
  abbrev pub list_eq : List A → List A → Bool
  list_eq [] [] = true
  list_eq [] (y ∷ ys) = false
  list_eq (x ∷ xs) [] = false
  list_eq (x ∷ xs) (y ∷ ys) = x == y && list_eq xs ys

  pub list_eq_iff : (xs ys : List A) → (list_eq xs ys ≡ true) ↔ (xs ≡ ys)
  list_eq_iff [] [] = (λ h. refl, λ h. refl)
  list_eq_iff [] (y ∷ ys) = (λ h. absurd (cc), λ h. absurd (cc))
  list_eq_iff (x ∷ xs) [] = (λ h. absurd (cc), λ h. absurd (cc))
  list_eq_iff (x ∷ xs) (y ∷ ys) = (
    λ h. grind (arith, e.test_iff x y, list_eq_iff xs ys),
    λ h. grind (arith, e.test_iff x y, list_eq_iff xs ys),
  )

  instance abbrev pub list_Eq : Eq (List A)
  list_Eq = record { test = list_eq; test_iff = list_eq_iff }
