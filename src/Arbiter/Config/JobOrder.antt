-- ===== src/Arbiter/Config/JobOrder.antt =====
-- arbiter/config.py: the order of the job table and `sort_jobs`.
use local_ai_server.Prelude.{
  All, Bool-cases, List, String, [], arith, false, inl, inr, number_Eq, refl, text_Eq, true, ℕ, ◌∷◌,
  ◌≡◌,
}
use local_ai_server.Prelude.Texts.{codes, codes_leb, codes_leb_total}
use local_ai_server.Arbiter.Config.{JobConfig, comes_before, count_name, place_job, sort_jobs}
use mathlib.Core.List.{Perm}
use mathlib.Core.List.Perm

codes_leb_trans :
    (xs ys zs : List ℕ) → codes_leb xs ys ≡ true → codes_leb ys zs ≡ true → codes_leb xs zs ≡ true
unfolding codes_leb
codes_leb_trans [] ys zs h k = refl
codes_leb_trans (x ∷ xs) [] zs h k = ground arith
codes_leb_trans (x ∷ xs) (y ∷ ys) [] h k = ground arith
codes_leb_trans (x ∷ xs) (y ∷ ys) (z ∷ zs) h k = ground (arith, codes_leb_trans xs ys zs)

pub comes_before_total : (a b : JobConfig) → comes_before a b ≡ false → comes_before b a ≡ true
unfolding comes_before
comes_before_total a b h = ground (arith, codes_leb_total (codes a.name) (codes b.name))

pub comes_before_trans :
    (a b c : JobConfig)
    → comes_before a b ≡ true
    → comes_before b c ≡ true
    → comes_before a c ≡ true
unfolding comes_before
comes_before_trans a b c h k =
    ground (arith, codes_leb_trans (codes a.name) (codes b.name) (codes c.name))

-- Each job may stand ahead of all that follow it.
abbrev pub IsSorted : List JobConfig → Type 0
IsSorted [] = Unit
IsSorted (j ∷ js) = All (λ x. comes_before j x ≡ true) js × IsSorted js

All-comes_before_trans :
    (a b : JobConfig) (xs : List JobConfig)
    → comes_before a b ≡ true
    → All (λ x. comes_before b x ≡ true) xs
    → All (λ x. comes_before a x ≡ true) xs
All-comes_before_trans a b [] h all = tt
All-comes_before_trans a b (x ∷ xs) h all =
    (comes_before_trans a b x h all.0, All-comes_before_trans a b xs h all.1)

All-place_job :
    (a j : JobConfig) (xs : List JobConfig)
    → comes_before a j ≡ true
    → All (λ x. comes_before a x ≡ true) xs
    → All (λ x. comes_before a x ≡ true) (place_job j xs)
unfolding place_job
All-place_job a j [] h all = (h, tt)
All-place_job a j (x ∷ xs) h all = elim (Bool-cases (comes_before j x)) [
  | inl e ↦ rw e (h, all)
  | inr e ↦ rw e (all.0, All-place_job a j xs h all.1)
]

pub place_job-IsSorted :
    (j : JobConfig) (xs : List JobConfig) → IsSorted xs → IsSorted (place_job j xs)
unfolding place_job
place_job-IsSorted j [] s = (tt, tt)
place_job-IsSorted j (x ∷ xs) s = elim (Bool-cases (comes_before j x)) [
  | inl e ↦ rw e ((e, All-comes_before_trans j x xs e s.0), s)
  | inr e ↦ rw e (All-place_job x j xs (comes_before_total j x e) s.0, place_job-IsSorted j xs s.1)
]

pub sort_jobs-IsSorted : (js : List JobConfig) → IsSorted (sort_jobs js)
unfolding sort_jobs
sort_jobs-IsSorted [] = tt
sort_jobs-IsSorted (j ∷ js) = place_job-IsSorted j (sort_jobs js) (sort_jobs-IsSorted js)

pub place_job-perm : (j : JobConfig) (xs : List JobConfig) → Perm (place_job j xs) (j ∷ xs)
unfolding place_job
place_job-perm j [] = Perm.rfl
place_job-perm j (x ∷ xs) = elim (Bool-cases (comes_before j x)) [
  | inl e ↦ rw e Perm.rfl
  | inr e ↦ rw e (Perm.trans (Perm.cons x (place_job-perm j xs)) (Perm.swap j x xs))
]

pub sort_jobs-perm : (js : List JobConfig) → Perm (sort_jobs js) js
unfolding sort_jobs
sort_jobs-perm [] = Perm.rfl
sort_jobs-perm (j ∷ js) =
    Perm.trans (place_job-perm j (sort_jobs js)) (Perm.cons j (sort_jobs-perm js))

pub count_name-place_job :
    (n : String) (j : JobConfig) (xs : List JobConfig)
    → count_name n (place_job j xs) ≡ count_name n (j ∷ xs)
unfolding place_job count_name
count_name-place_job n j [] = refl
count_name-place_job n j (x ∷ xs) = ground (arith, count_name-place_job n j xs)

pub count_name-sort_jobs :
    (n : String) (js : List JobConfig) → count_name n (sort_jobs js) ≡ count_name n js
unfolding sort_jobs count_name
count_name-sort_jobs n [] = refl
count_name-sort_jobs n (j ∷ js) =
    ground (arith, count_name-place_job n j (sort_jobs js), count_name-sort_jobs n js)
