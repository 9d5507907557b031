-- ===== src/Arbiter/Config/Loading.antt =====
-- What a job table that loads looks like.
use local_ai_server.Prelude.{
  Bool-cases, List, String, [], arith, false, inl, inr, refl, some, subst, text_Eq, ◌∷◌, ◌≡◌, ◌≤◌,
  ◌⊎◌,
}
use local_ai_server.Prelude.Result.{ok}
use local_ai_server.Arbiter.Config.{
  JobConfig, RawJob, checked_jobs, count_name, has_duplicate, load_jobs, make_jobs, sort_jobs,
}
use local_ai_server.Arbiter.Config.JobOrder.{
  IsSorted, count_name-sort_jobs, sort_jobs-IsSorted, sort_jobs-perm,
}
use mathlib.Core.List.{Perm}

count_name-none :
    (n : String) (xs all : List JobConfig)
    → has_duplicate xs all ≡ false
    → count_name n xs ≡ 0 ⊎ count_name n all ≤ 1
unfolding has_duplicate count_name
count_name-none n [] all h = inl refl
count_name-none n (x ∷ xs) all h =
    ground (arith, text_Eq.test_iff x.name n, count_name-none n xs all)

count_name-le_one :
    (n : String) (js : List JobConfig) → has_duplicate js js ≡ false → count_name n js ≤ 1
count_name-le_one n js h = ground (arith, count_name-none n js js h)

pub record IsTable (parsed jobs : List JobConfig) : Type 0 where
  pub sorted : IsSorted jobs
  pub same_jobs : Perm jobs parsed
  pub unique : (n : String) → count_name n jobs ≤ 1

checked_jobs-IsTable :
    (parsed jobs : List JobConfig) → checked_jobs parsed ≡ ok jobs → IsTable parsed jobs
unfolding checked_jobs
checked_jobs-IsTable parsed jobs h = elim (Bool-cases (has_duplicate parsed parsed)) [
  | inl e ↦ absurd (cc (rw e at h))
  | inr e ↦
      let same : sort_jobs parsed ≡ jobs = cc (rw e at h) in
      record {
        sorted = subst IsSorted same (sort_jobs-IsSorted parsed);
        same_jobs = subst (λ l. Perm l parsed) same (sort_jobs-perm parsed);
        unique =
            λ n. rw (← same) (rw (count_name-sort_jobs n parsed) (count_name-le_one n parsed e));
      }
]

-- A table that loads from a file holds exactly the parsed entries, each name at most once, the
-- highest priority first and equal priorities by name.
pub load_jobs-IsTable :
    (entries : List RawJob) (parsed jobs : List JobConfig)
    → make_jobs entries ≡ ok parsed
    → load_jobs (some entries) ≡ ok jobs
    → IsTable parsed jobs
unfolding load_jobs
load_jobs-IsTable entries parsed jobs p h = checked_jobs-IsTable parsed jobs (cc)
