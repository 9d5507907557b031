-- ===== src/Arbiter/Scheduler/Takeover.antt =====
-- arbiter/scheduler.py, `acquire`: a caller that outranks the holder.
use local_ai_server.Prelude.{
  ==_refl, ==→≡, Bool, Bool-cases, List, String, [], arith, contains, false, inl, inr, length,
  number_Eq, refl, some, subst, sym, text_Eq, true, ◌==◌, ◌∷◌, ◌≡◌, ◌≢◌,
}
use local_ai_server.Prelude.Int.{lebℤ}
use local_ai_server.Prelude.Dict.{contains-keys, keys, lookup}
use local_ai_server.Prelude.Result.{ok}
use local_ai_server.Arbiter.Config.{JobConfig, Kind, container, cooperative, unmanaged}
use local_ai_server.Arbiter.Reclaimers.{Inspect, Reclaimer, holds, holds_as, is_up}
use local_ai_server.Arbiter.Scheduler.State.{Scheduler, holding, job_for, release_all}
use local_ai_server.Arbiter.Scheduler.Acquire.{
  Env, acquire, after_reclaim, check_room, conclude, contend, fits, granted, reclaim_as,
  reclaimed_from, same_size, scan, settle, take_card, visit, vram_settles,
}
use local_ai_server.Arbiter.Scheduler.Visits.{reclaim_as-Shrinks, reclaim_as-ends}
use local_ai_server.Arbiter.Scheduler.Exclusive.{IsExclusive}
use local_ai_server.Arbiter.Scheduler.Granting.{IsFree, scan_free, visit_free}

after_reclaim_done :
    (other : String) (p : Bool × Scheduler)
    → p.0 ≡ true
    → after_reclaim other [] p ≡ ok (record { sched = p.1; stopped = other ∷ [] })
unfolding after_reclaim
after_reclaim_done other (true, s) h = refl
after_reclaim_done other (false, s) h = absurd (cc)

held_as : (k : Kind) (held up : Bool) → holds_as k held up ≡ true → held ≡ true
held_as unmanaged held up h = h
held_as container held up h = ground arith
held_as cooperative held up h = h

holds-held : (inspect : Inspect) (r : Reclaimer) → holds inspect r ≡ true → r.held ≡ true
unfolding holds
holds-held inspect r h = held_as r.job.kind r.held (is_up (inspect r.job.container)) h

-- The reclaim of `n`, which holds the card, reports success and adds no job to the table.
pub record IsReclaimed (env : Env) (n : String) (r : Reclaimer) (s : Scheduler) : Type 0 where
  pub found : lookup n s.reclaimers ≡ some r
  pub in_use : holds env.inspect r ≡ true
  pub done : (reclaim_as r.job.kind env n r s).0 ≡ true
  pub no_new : length (reclaim_as r.job.kind env n r s).1.reclaimers ≡ length s.reclaimers

module _ (env : Env) (job : JobConfig) (n : String) (r : Reclaimer) (s : Scheduler)
    (works : IsReclaimed env n r s) (only : IsExclusive env.inspect s)
    (below : lebℤ job.priority r.job.priority ≡ false) (ne : n ≢ job.name) where
  abbrev after : Scheduler
  after = (reclaim_as r.job.kind env n r s).1

  n_holds : holding env.inspect n s ≡ true
  unfolding holding
  n_holds = rw (works.found, holding) works.in_use

  after-IsFree : IsFree env job after
  after-IsFree m other = elim (Bool-cases (holding env.inspect m after)) [
    | inr e ↦ e
    | inl e ↦
        let before = reclaim_as-Shrinks env r.job.kind n r s m e in
        let same : m ≡ n = only m n before n_holds in
        let ended =
          reclaim_as-ends env r.job.kind n r s (holds-held env.inspect r works.in_use) works.done in
        absurd (cc)
  ]

  visit_holder :
      visit env job n (record { sched = s; stopped = [] })
      ≡ ok (record { sched = after; stopped = n ∷ [] })
  unfolding visit contend
  visit_holder = elim (Bool-cases (n == job.name)) [
    | inl e ↦ absurd (ne (==→≡ n job.name e))
    | inr e ↦
        rw (e, works.found, visit)
          (rw (works.in_use, below)
            (after_reclaim_done n (reclaim_as r.job.kind env n r s) works.done))
  ]

  visit_same :
      (other : String)
      → n ≡ other
      → visit env job other (record { sched = s; stopped = [] })
        ≡ ok (record { sched = after; stopped = n ∷ [] })
  visit_same other same =
      subst
        (λ m.
          visit env job m (record { sched = s; stopped = [] })
          ≡ ok (record { sched = after; stopped = n ∷ [] }))
        same visit_holder

  scan_takes :
      (others : List String)
      → contains others n ≡ true
      → scan env job (length s.reclaimers) others (record { sched = s; stopped = [] })
        ≡ ok (record { sched = after; stopped = n ∷ [] })
  unfolding scan same_size contains
  scan_takes [] h = absurd (cc)
  scan_takes (other ∷ rest) h = elim (Bool-cases (other == n)) [
    | inl e ↦
        rw (==_refl (length s.reclaimers), visit_same other (sym (==→≡ other n e)))
          (subst
            (λ size.
              scan env job size rest (record { sched = after; stopped = n ∷ [] })
              ≡ ok (record { sched = after; stopped = n ∷ [] }))
            works.no_new
            (scan_free env job rest (record { sched = after; stopped = n ∷ [] }) after-IsFree))
    | inr e ↦
        let idle : holding env.inspect other s ≡ false =
          elim (Bool-cases (holding env.inspect other s)) [
            | inl held ↦ absurd (cc (only other n held n_holds, ==_refl n))
            | inr free ↦ free
          ] in
        rw
          (
            ==_refl (length s.reclaimers),
            visit_free env job other (record { sched = s; stopped = [] }) (λ d. idle),
          )
          (scan_takes rest (ground arith))
  ]

  take_card_takes :
      vram_settles env.first_reading env.readings ≡ true
      → fits job env.free_mb ≡ true
      → take_card env job s
        ≡ ok
            (record { sched = release_all env.inspect env.settle_arrivals after; stopped = n ∷ [] })
  unfolding take_card settle check_room
  take_card_takes settles room =
      rw (scan_takes (keys s.reclaimers) (contains-keys n s.reclaimers r works.found))
        (rw (settles) (rw (room) refl))

-- If one job alone holds the card, the caller outranks it and its reclaim succeeds with no name
-- added to the table meanwhile, the driver's readings settle and leave the caller room, then
-- `acquire` grants the card, says what it was reclaimed from, and records the caller as the
-- holder.
pub acquire-takes_over :
    (env : Env) (name n : String) (r : Reclaimer) (s : Scheduler)
    → IsReclaimed env n r (job_for name s).1
    → IsExclusive env.inspect (job_for name s).1
    → lebℤ (job_for name s).0.priority r.job.priority ≡ false
    → n ≢ (job_for name s).0.name
    → vram_settles env.first_reading env.readings ≡ true
    → fits (job_for name s).0 env.free_mb ≡ true
    → ((acquire env name s).1 ≡ granted (reclaimed_from (n ∷ [])))
      × ((acquire env name s).0.holder ≡ some (job_for name s).0.name)
unfolding acquire conclude
acquire-takes_over env name n r s works only below ne settles room =
    let (job, s') = job_for name s in
    let n_holds = n_holds env job n r s' works only below ne in
    elim (Bool-cases (holding env.inspect job.name s')) [
      | inl e ↦ absurd (ne (only n job.name n_holds e))
      | inr e ↦ rw (e, take_card_takes env job n r s' works only below ne settles room) (refl, refl)
    ]
