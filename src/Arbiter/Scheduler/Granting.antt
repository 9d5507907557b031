-- ===== src/Arbiter/Scheduler/Granting.antt =====
-- arbiter/scheduler.py, `acquire`: a free card.
use local_ai_server.Prelude.{
  ==_refl, Bool-cases, List, Option, Option-cases, String, [], false, inl, inr, length, list_Eq,
  none, number_Eq, refl, some, text_Eq, ◌==◌, ◌∷◌, ◌≡◌, ◌≢◌, ◌⊎◌,
}
use local_ai_server.Prelude.Int.{pos, ℤ, ◌≤ℤ◌}
use local_ai_server.Prelude.Dict.{lookup}
use local_ai_server.Prelude.Result.{ok}
use local_ai_server.Arbiter.Config.{JobConfig}
use local_ai_server.Arbiter.Reclaimers.{holds}
use local_ai_server.Arbiter.Scheduler.State.{Scheduler, holding}
use local_ai_server.Arbiter.Scheduler.Acquire.{Env, Scan, same_size, scan, visit}

module _ (env : Env) (job : JobConfig) where
  -- No other job holds the card.
  abbrev pub IsFree : Scheduler → Type 0
  IsFree s = (n : String) → n ≢ job.name → holding env.inspect n s ≡ false

  pub visit_free :
      (other : String) (sc : Scan)
      → (other ≢ job.name → holding env.inspect other sc.sched ≡ false)
      → visit env job other sc ≡ ok sc
  unfolding visit holding
  visit_free other sc free = elim (Bool-cases (other == job.name)) [
    | inl e ↦ rw e refl
    | inr e ↦
        let idle : holding env.inspect other sc.sched ≡ false =
          free (λ same. cc ((text_Eq.test_iff other job.name).1 same)) in
        elim (Option-cases (lookup other sc.sched.reclaimers)) [
          | inl l ↦ rw (e, l, visit) refl
          | inr (r, l) ↦
              let out : holds env.inspect r ≡ false = rw (l, holding) at idle in
              rw (e, l, visit) (rw out refl)
        ]
  ]

  pub scan_free :
      (others : List String) (sc : Scan)
      → IsFree sc.sched
      → scan env job (length sc.sched.reclaimers) others sc ≡ ok sc
  unfolding scan same_size
  scan_free [] sc free = rw (==_refl (length sc.sched.reclaimers)) refl
  scan_free (other ∷ rest) sc free =
      rw (==_refl (length sc.sched.reclaimers), visit_free other sc (free other))
        (scan_free rest sc free)

-- The job asks for no memory, or a reading of the free memory leaves it what it asks for, or there
-- is no reading.
abbrev pub HasRoom : ℤ → Option ℤ → Type 0
HasRoom required free_mb =
    (free_mb ≡ none)
    ⊎ ((free : ℤ) × (free_mb ≡ some free) × ((required ≡ pos 0) ⊎ (required ≤ℤ free)))
