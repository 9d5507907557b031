-- ===== src/Prelude/Sorting.antt =====
-- Python's sorted and list.sort, which are stable, with the test that an element may stand before
-- another.
use mathlib.Core.Path.{◌≡◌}
use mathlib.Core.Logic.{inl, inr}
use mathlib.Core.Bool.{Bool, true, false}
use mathlib.Core.List.{List, [], ◌∷◌, Perm}
use mathlib.Core.List.Perm
use local_ai_server.Prelude.Lists.{All}
use local_ai_server.Prelude.Tests.{Bool-cases, if◌then◌else◌}

module _ {ℓ} {A : Type ℓ} where
  -- An element before the first one that it may stand before.
  unfoldable pub place_by : (A → A → Bool) → A → List A → List A
  place_by before x [] = x ∷ []
  place_by before x (y ∷ ys) = if before x y then x ∷ y ∷ ys else y ∷ place_by before x ys

  unfoldable pub sort_by : (A → A → Bool) → List A → List A
  unfolding place_by
  sort_by before [] = []
  sort_by before (x ∷ xs) = place_by before x (sort_by before xs)

  -- Each element may stand before the next.
  abbrev pub IsSorted : (A → A → Bool) → List A → Type 0
  IsSorted before [] = Unit
  IsSorted before (x ∷ []) = Unit
  IsSorted before (x ∷ y ∷ ys) = (before x y ≡ true) × IsSorted before (y ∷ ys)

  pub place_by-perm :
      (before : A → A → Bool) (x : A) (xs : List A) → Perm (place_by before x xs) (x ∷ xs)
  unfolding place_by
  place_by-perm before x [] = Perm.rfl
  place_by-perm before x (y ∷ ys) = elim (Bool-cases (before x y)) [
    | inl e ↦ rw e Perm.rfl
    | inr e ↦ rw e (Perm.trans (Perm.cons y (place_by-perm before x ys)) (Perm.swap x y ys))
  ]

  pub sort_by-perm : (before : A → A → Bool) (xs : List A) → Perm (sort_by before xs) xs
  unfolding sort_by
  sort_by-perm before [] = Perm.rfl
  sort_by-perm before (x ∷ xs) =
      Perm.trans (place_by-perm before x (sort_by before xs)) (Perm.cons x (sort_by-perm before xs))

  -- Two elements can always stand in one of the two orders.
  abbrev pub IsTotal : (A → A → Bool) → Type ℓ
  IsTotal before = (x y : A) → before x y ≡ false → before y x ≡ true

  module _ (before : A → A → Bool) (total : IsTotal before) where
    IsSorted-rest : (y : A) (ys : List A) → IsSorted before (y ∷ ys) → IsSorted before ys
    IsSorted-rest y [] s = tt
    IsSorted-rest y (z ∷ zs) s = s.1

    IsSorted-behind :
        (y x : A) (ys : List A)
        → before y x ≡ true
        → IsSorted before (y ∷ ys)
        → IsSorted before (place_by before x ys)
        → IsSorted before (y ∷ place_by before x ys)
    unfolding place_by
    IsSorted-behind y x [] h s rest = (h, tt)
    IsSorted-behind y x (z ∷ zs) h s rest =
        elim (before x z)
            as (λ b.
              IsSorted before (if b then x ∷ z ∷ zs else z ∷ place_by before x zs)
              → IsSorted before (y ∷ (if b then x ∷ z ∷ zs else z ∷ place_by before x zs))) [
                | true ↦ λ r. (h, r)
                | false ↦ λ r. (s.0, r)
              ]
          rest

    pub place_by-IsSorted :
        (x : A) (xs : List A) → IsSorted before xs → IsSorted before (place_by before x xs)
    unfolding place_by
    place_by-IsSorted x [] s = tt
    place_by-IsSorted x (y ∷ ys) s = elim (Bool-cases (before x y)) [
      | inl e ↦ rw (e, place_by) (e, s)
      | inr e ↦
          rw (e, place_by)
            (IsSorted-behind y x ys (total x y e) s (place_by-IsSorted x ys (IsSorted-rest y ys s)))
    ]

    pub sort_by-IsSorted : (xs : List A) → IsSorted before (sort_by before xs)
    unfolding sort_by
    sort_by-IsSorted [] = tt
    sort_by-IsSorted (x ∷ xs) = place_by-IsSorted x (sort_by before xs) (sort_by-IsSorted xs)

module _ {ℓ κ} {A : Type ℓ} (P : A → Type κ) (before : A → A → Bool) where
  All-place_by : (x : A) (xs : List A) → P x → All P xs → All P (place_by before x xs)
  unfolding place_by
  All-place_by x [] h all = (h, tt)
  All-place_by x (y ∷ ys) h all = elim (Bool-cases (before x y)) [
    | inl e ↦ rw (e, place_by) (h, all)
    | inr e ↦ rw (e, place_by) (all.0, All-place_by x ys h all.1)
  ]

  pub All-sort_by : (xs : List A) → All P xs → All P (sort_by before xs)
  unfolding sort_by
  All-sort_by [] all = tt
  All-sort_by (x ∷ xs) all = All-place_by x (sort_by before xs) all.0 (All-sort_by xs all.1)
