-- ===== src/Prelude/Dict.antt =====
-- Python's dict: an association list in insertion order. Writing an existing key keeps its
-- place, a new key goes to the end.
use mathlib.Core.Path.{◌≡◌, refl, ap, ◌∙◌}
use mathlib.Core.Logic.{inl, inr}
use mathlib.Core.Bool.{Bool, true, false, ◌||◌}
use mathlib.Core.Option.{Option, none, some}
use mathlib.Core.Option
use mathlib.Core.List.{List, [], ◌∷◌, ◌++◌}
use Prim.Native.Nat.{ℕ, ◌+◌}
use native.Mathlib.Omega.{arith}
use local_ai_server.Prelude.Tests.{==_refl, ==→≡, Bool-cases, Eq, if◌then◌else◌, ◌==◌}
use local_ai_server.Prelude.Lists.{All, contains, length}

abbrev pub Dict {ℓ} : Type ℓ → Type ℓ → Type ℓ
Dict K V = List (K × V)

module _ {ℓ} {K V : Type ℓ} where
  -- list(d)
  unfoldable pub keys : Dict K V → List K
  keys [] = []
  keys ((k, v) ∷ d) = k ∷ keys d

module _ {ℓ} {K V : Type ℓ} ⦃e : Eq K⦄ where
  -- d.get(k)
  unfoldable pub lookup : K → Dict K V → Option V
  lookup k [] = none
  lookup k ((j, v) ∷ d) = if j == k then some v else lookup k d

  -- d[k] = v
  unfoldable pub insert : K → V → Dict K V → Dict K V
  insert k v [] = (k, v) ∷ []
  insert k v ((j, w) ∷ d) = if j == k then (j, v) ∷ d else (j, w) ∷ insert k v d

  -- d.pop(k, None)
  unfoldable pub remove : K → Dict K V → Dict K V
  remove k [] = []
  remove k ((j, w) ∷ d) = if j == k then remove k d else (j, w) ∷ remove k d

  -- A method call on the object that stands under `k`.
  unfoldable pub adjust : K → (V → V) → Dict K V → Dict K V
  adjust k f [] = []
  adjust k f ((j, w) ∷ d) = (if j == k then (j, f w) else (j, w)) ∷ adjust k f d

  -- k in d
  unfoldable pub has : K → Dict K V → Bool
  unfolding lookup
  has k d = elim (lookup k d) [ none ↦ false | some v ↦ true ]

  pub lookup-insert :
      (k j : K) (v : V) (d : Dict K V)
      → lookup j (insert k v d) ≡ (if k == j then some v else lookup j d)
  unfolding lookup insert
  lookup-insert k j v [] = refl
  lookup-insert k j v ((i, w) ∷ d) =
      ground (arith, e.test_iff k j, e.test_iff i k, e.test_iff i j, lookup-insert k j v d)

  pub lookup-remove :
      (k j : K) (d : Dict K V) → lookup j (remove k d) ≡ (if k == j then none else lookup j d)
  unfolding lookup remove
  lookup-remove k j [] = ground arith
  lookup-remove k j ((i, w) ∷ d) =
      ground (arith, e.test_iff k j, e.test_iff i k, e.test_iff i j, lookup-remove k j d)

  pub lookup-adjust :
      (k j : K) (f : V → V) (d : Dict K V)
      → lookup j (adjust k f d) ≡ (if k == j then Option.map f (lookup j d) else lookup j d)
  unfolding lookup adjust
  lookup-adjust k j f [] = ground arith
  lookup-adjust k j f ((i, w) ∷ d) =
      ground (arith, e.test_iff k j, e.test_iff i k, e.test_iff i j, lookup-adjust k j f d)

  pub length-adjust : (k : K) (f : V → V) (d : Dict K V) → length (adjust k f d) ≡ length d
  unfolding adjust
  length-adjust k f [] = refl
  length-adjust k f ((i, w) ∷ d) = ground (arith, length-adjust k f d)

  -- What is found stands under one of the keys.
  pub contains-keys :
      (k : K) (d : Dict K V) (v : V) → lookup k d ≡ some v → contains (keys d) k ≡ true
  unfolding lookup keys contains
  contains-keys k [] v h = ground arith
  contains-keys k ((j, w) ∷ d) v h = ground (arith, contains-keys k d v)

  pub keys-insert :
      (k j : K) (v : V) (d : Dict K V)
      → contains (keys (insert k v d)) j ≡ (contains (keys d) j || k == j)
  unfolding insert keys contains
  keys-insert k j v [] = ground arith
  keys-insert k j v ((i, w) ∷ d) =
      ground (arith, e.test_iff i k, e.test_iff i j, e.test_iff k j, keys-insert k j v d)

  -- No key stands twice.
  abbrev pub HasUniqueKeys : Dict K V → Type 0
  HasUniqueKeys [] = Unit
  HasUniqueKeys ((k, v) ∷ d) = (contains (keys d) k ≡ false) × HasUniqueKeys d

  pub insert-HasUniqueKeys :
      (k : K) (v : V) (d : Dict K V) → HasUniqueKeys d → HasUniqueKeys (insert k v d)
  unfolding insert
  insert-HasUniqueKeys k v [] u = (unfold keys contains in refl, tt)
  insert-HasUniqueKeys k v ((j, w) ∷ d) u = elim (Bool-cases (j == k)) [
    | inl h ↦ rw (h, insert) u
    | inr h ↦
        rw (h, insert)
          (
            keys-insert k j v d ∙ ground (arith, u.0, h, e.test_iff j k, e.test_iff k j),
            insert-HasUniqueKeys k v d u.1,
          )
  ]

  lookup-behind :
      (k : K) (v : V) (d ds : Dict K V)
      → contains (keys ds) k ≡ false
      → All (λ p. lookup p.0 d ≡ some p.1) ds
      → All (λ p. lookup p.0 ((k, v) ∷ d) ≡ some p.1) ds
  unfolding keys contains lookup
  lookup-behind k v d [] h all = tt
  lookup-behind k v d ((j, w) ∷ ds) h all = (
    ground (arith, all.0, h, e.test_iff j k, e.test_iff k j),
    lookup-behind k v d ds (ground arith) all.1,
  )

  -- Where no key stands twice, each entry is what its key finds.
  pub lookup-each : (d : Dict K V) → HasUniqueKeys d → All (λ p. lookup p.0 d ≡ some p.1) d
  unfolding lookup
  lookup-each [] u = tt
  lookup-each ((k, v) ∷ d) u = (rw (==_refl k) refl, lookup-behind k v d d u.0 (lookup-each d u.1))

-- d.get(k, 0), of what is found
abbrev pub or_zero : Option ℕ → ℕ
or_zero none = 0
or_zero (some n) = n

module _ {K : Type 0} ⦃e : Eq K⦄ where
  -- `d[k] = d.get(k, 0) + 1`
  unfoldable pub count_up : K → Dict K ℕ → Dict K ℕ
  unfolding insert lookup
  count_up k d = insert k (or_zero (lookup k d) + 1) d

  pub or_zero-count_up :
      (k j : K) (d : Dict K ℕ)
      → or_zero (lookup j (count_up k d)) ≡ or_zero (lookup j d) + (if k == j then 1 else 0)
  unfolding count_up
  or_zero-count_up k j d =
      rw (lookup-insert k j (or_zero (lookup k d) + 1) d) (elim (Bool-cases (k == j)) [
        | inl h ↦ rw h (ap (λ i. or_zero (lookup i d) + 1) (==→≡ k j h))
        | inr h ↦ rw h (omega arith)
      ])

abbrev pub or_nil {ℓ} : {A : Type ℓ} → Option (List A) → List A
or_nil none = []
or_nil (some xs) = xs

module _ {ℓ} {K A : Type ℓ} ⦃e : Eq K⦄ where
  -- d.setdefault(k, []).append(a)
  unfoldable pub append_under : K → A → Dict K (List A) → Dict K (List A)
  unfolding insert lookup
  append_under k a d = insert k (or_nil (lookup k d) ++ a ∷ []) d

  pub lookup-append_under :
      (k j : K) (a : A) (d : Dict K (List A))
      → or_nil (lookup j (append_under k a d))
        ≡ (if k == j then or_nil (lookup j d) ++ a ∷ [] else or_nil (lookup j d))
  unfolding append_under
  lookup-append_under k j a d =
      rw (lookup-insert k j (or_nil (lookup k d) ++ a ∷ []) d) (elim (Bool-cases (k == j)) [
        | inl h ↦ rw h (ap (λ i. or_nil (lookup i d) ++ a ∷ []) (==→≡ k j h))
        | inr h ↦ rw h refl
      ])
