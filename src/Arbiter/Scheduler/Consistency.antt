-- ===== src/Arbiter/Scheduler/Consistency.antt =====
-- arbiter/scheduler.py: the table, the dictionary of reclaimers and their names.
use local_ai_server.Prelude.{
  List, Option-cases, String, [], arith, inl, inr, number_Eq, none, refl, some, text_Eq, true, ℕ,
  ◌++◌, ◌==◌, ◌||◌, ◌∷◌, ◌≡◌,
}
use local_ai_server.Prelude.Dict.{Dict, adjust, lookup, lookup-adjust, lookup-insert}
use local_ai_server.Arbiter.Config.{JobConfig, place_job, sort_jobs}
use local_ai_server.Arbiter.Config.JobOrder.{IsSorted, sort_jobs-IsSorted}
use local_ai_server.Arbiter.Reclaimers.{Inspect, Reclaimer, build}
use local_ai_server.Arbiter.Scheduler.State.{
  Scheduler, add_invented, build_all, invented_job, on_reclaimer, release, start,
}
use local_ai_server.Arbiter.Scheduler.Acquire.{Env, acquire}
use local_ai_server.Arbiter.Scheduler.Reap.{reap}
use local_ai_server.Arbiter.Scheduler.Reaping.{listed}
use local_ai_server.Arbiter.Scheduler.Keeping.{
  IsKept, SameJob, acquire-kept, reap-kept, release-kept,
}

-- Each reclaimer stands under the name of its job, that job is in the table, and the table is
-- sorted by priority.
pub record IsConsistent (s : Scheduler) : Type 0 where
  pub named : (n : String) (r : Reclaimer) → lookup n s.reclaimers ≡ some r → r.job.name ≡ n
  pub in_table :
      (n : String) (r : Reclaimer) → lookup n s.reclaimers ≡ some r → listed n s.jobs ≡ true
  pub ranked : IsSorted s.jobs

listed-place_job :
    (n : String) (j : JobConfig) (xs : List JobConfig)
    → listed n (place_job j xs) ≡ listed n (j ∷ xs)
unfolding place_job
listed-place_job n j [] = refl
listed-place_job n j (x ∷ xs) = ground (arith, listed-place_job n j xs)

listed-sort_jobs : (n : String) (xs : List JobConfig) → listed n (sort_jobs xs) ≡ listed n xs
unfolding sort_jobs
listed-sort_jobs n [] = refl
listed-sort_jobs n (x ∷ xs) =
    ground (arith, listed-place_job n x (sort_jobs xs), listed-sort_jobs n xs)

listed-append :
    (n : String) (xs : List JobConfig) (j : JobConfig)
    → listed n (xs ++ j ∷ []) ≡ (listed n xs || j.name == n)
listed-append n [] j = ground arith
listed-append n (x ∷ xs) j = ground (arith, listed-append n xs j)

adjust-some :
    (k n : String) (f : Reclaimer → Reclaimer) (d : Dict String Reclaimer) (r : Reclaimer)
    → SameJob f
    → lookup n (adjust k f d) ≡ some r
    → (q : Reclaimer) × (lookup n d ≡ some q) × (q.job ≡ r.job)
adjust-some k n f d r same h = elim (Option-cases (lookup n d)) [
  | inl e ↦ absurd (ground (arith, lookup-adjust k n f d))
  | inr (q, e) ↦ (q, e, ground (arith, lookup-adjust k n f d, same q))
]

new_caller-IsConsistent :
    (k : String) (s : Scheduler)
    → lookup k s.reclaimers ≡ none
    → IsConsistent s
    → IsConsistent (add_invented k s)
unfolding add_invented build
new_caller-IsConsistent k s new c = record {
  named = λ n r h. ground (
    arith,
    lookup-insert k n (build (invented_job k)) s.reclaimers,
    text_Eq.test_iff k n,
    c.named n r,
  );
  in_table = λ n r h.
      rw
        (
          listed-sort_jobs n (s.jobs ++ invented_job k ∷ []),
          listed-append n s.jobs (invented_job k),
        )
        (ground (arith, lookup-insert k n (build (invented_job k)) s.reclaimers, c.in_table n r));
  ranked = sort_jobs-IsSorted (s.jobs ++ invented_job k ∷ []);
}

method-IsConsistent :
    (k : String) (f : Reclaimer → Reclaimer) (s : Scheduler)
    → SameJob f
    → IsConsistent s
    → IsConsistent (on_reclaimer k f s)
unfolding on_reclaimer
method-IsConsistent k f s same c = record {
  named = λ n r h. let (q, e, is) = adjust-some k n f s.reclaimers r same h in cc (c.named n q e);
  in_table = λ n r h. let (q, e, is) = adjust-some k n f s.reclaimers r same h in c.in_table n q e;
  ranked = c.ranked;
}

IsConsistent-kept : IsKept IsConsistent
IsConsistent-kept = record {
  by_method = method-IsConsistent;
  by_new_caller = new_caller-IsConsistent;
  by_note = λ h why s c. record { named = c.named; in_table = c.in_table; ranked = c.ranked };
}

start_some :
    (n : String) (jobs : List JobConfig) (r : Reclaimer)
    → lookup n (build_all jobs) ≡ some r
    → (r.job.name ≡ n) × (listed n jobs ≡ true)
unfolding lookup build_all build
start_some n [] r h = cc
start_some n (j ∷ js) r h = ground (arith, text_Eq.test_iff j.name n, start_some n js r)

-- The scheduler starts consistent with a sorted table, and every operation keeps it so.
pub start-IsConsistent : (jobs : List JobConfig) → IsSorted jobs → IsConsistent (start jobs)
unfolding start
start-IsConsistent jobs sorted = record {
  named = λ n r h. (start_some n jobs r h).0;
  in_table = λ n r h. (start_some n jobs r h).1;
  ranked = sorted;
}

-- What can happen to the scheduler: a caller asks, a caller releases, the reaper runs.
pub data Step (stale_after : ℕ) : Scheduler → Scheduler → Type 0 where
  asks : (env : Env) (name : String) (s : Scheduler) → Step stale_after s (acquire env name s).0
  releases :
      (inspect : Inspect) (name : String) (s : Scheduler)
      → Step stale_after s (release inspect name s)
  reaps :
      (inspect : Inspect) (now : ℕ) (s : Scheduler)
      → Step stale_after s (reap stale_after inspect now s)

pub data Reach (stale_after : ℕ) (s : Scheduler) : Scheduler → Type 0 where
  here : Reach stale_after s s
  next : {t u : Scheduler} → Reach stale_after s t → Step stale_after t u → Reach stale_after s u

Step-IsConsistent :
    {stale_after : ℕ} {t u : Scheduler} → Step stale_after t u → IsConsistent t → IsConsistent u
Step-IsConsistent (asks env name s) c = acquire-kept IsConsistent-kept env name s c
Step-IsConsistent (releases inspect name s) c = release-kept IsConsistent-kept inspect name s c
Step-IsConsistent {stale_after} (reaps inspect now s) c =
    reap-kept IsConsistent-kept stale_after inspect now s c

-- From a sorted table, after any sequence of requests, releases and reaper runs, each reclaimer
-- stands under its job's name, its job is in the table, and the table is sorted by priority.
pub Reach-IsConsistent :
    (stale_after : ℕ) (jobs : List JobConfig) (s : Scheduler)
    → IsSorted jobs
    → Reach stale_after (start jobs) s
    → IsConsistent s
Reach-IsConsistent stale_after jobs s sorted r = go r
  where
    go : {s : Scheduler} → Reach stale_after (start jobs) s → IsConsistent s
    go here = start-IsConsistent jobs sorted
    go (next r st) = Step-IsConsistent st (go r)
