-- ===== src/Arbiter/Scheduler/Exits.antt =====
-- arbiter/scheduler.py, `acquire`: its early exits.
use local_ai_server.Prelude.{
  Bool, List, Option-cases, String, [], arith, false, inl, inr, length, number_Eq, refl, text_Eq,
  true, ℕ, ◌∷◌, ◌≡◌, ◌⊎◌,
}
use local_ai_server.Prelude.Dict.{keys, lookup}
use local_ai_server.Prelude.Result.{Result, err, ok, ◌>>=◌}
use local_ai_server.Arbiter.Config.{JobConfig}
use local_ai_server.Arbiter.Scheduler.State.{Scheduler}
use local_ai_server.Arbiter.Scheduler.Acquire.{
  Env, Exit, Outcome, Scan, after_reclaim, check_room, contend, granted, raised, reclaim_as, refuse,
  refused, same_size, scan, settle, take_card, visit,
}

abbrev pub is_granted : Outcome → Bool
is_granted (granted d) = true
is_granted (refused why) = false
is_granted raised = false

pub Result-cases :
    {E A : Type 0} (m : Result E A) → ((a : A) × (m ≡ ok a)) ⊎ ((e : E) × (m ≡ err e))
Result-cases (ok a) = inl (a, refl)
Result-cases (err e) = inr (e, refl)

-- No grant is among the exits of `m`.
abbrev NoGrant : Result Exit Scan → Type 0
NoGrant m = (exit : Exit) → m ≡ err exit → is_granted exit.1 ≡ false

bind-NoGrant :
    (m : Result Exit Scan) (f : Scan → Result Exit Scan)
    → NoGrant m
    → ((sc : Scan) → NoGrant (f sc))
    → NoGrant (m >>= f)
bind-NoGrant (ok sc) f h k = k sc
bind-NoGrant (err exit) f h k = h

module _ (env : Env) (job : JobConfig) where
  after_reclaim-NoGrant :
      (other : String) (stopped : List String) (b : Bool) (s : Scheduler)
      → NoGrant (after_reclaim other stopped (b, s))
  unfolding after_reclaim
  after_reclaim-NoGrant other stopped true s exit e = cc
  after_reclaim-NoGrant other stopped false s exit e = ground arith

  visit-NoGrant : (other : String) (sc : Scan) → NoGrant (visit env job other sc)
  unfolding visit contend refuse
  visit-NoGrant other sc exit e = elim (Option-cases (lookup other sc.sched.reclaimers)) [
    | inl l ↦ ground arith
    | inr (q, l) ↦ ground (
      arith,
      after_reclaim-NoGrant other sc.stopped (reclaim_as q.job.kind env other q sc.sched).0
          (reclaim_as q.job.kind env other q sc.sched).1 exit,
    )
  ]

  same_size-NoGrant : (size : ℕ) (sc : Scan) → NoGrant (same_size size sc)
  unfolding same_size
  same_size-NoGrant size sc exit e = ground arith

  scan-NoGrant : (size : ℕ) (names : List String) (sc : Scan) → NoGrant (scan env job size names sc)
  unfolding scan
  scan-NoGrant size [] sc = same_size-NoGrant size sc
  scan-NoGrant size (x ∷ xs) sc =
      bind-NoGrant (same_size size sc >>= visit env job x) (scan env job size xs)
        (bind-NoGrant (same_size size sc) (visit env job x) (same_size-NoGrant size sc)
          (visit-NoGrant x))
        (scan-NoGrant size xs)

  settle-NoGrant : (sc : Scan) → NoGrant (settle env sc)
  unfolding settle refuse
  settle-NoGrant sc exit e = ground arith

  check_room-NoGrant : (sc : Scan) → NoGrant (check_room env job sc)
  unfolding check_room refuse
  check_room-NoGrant sc exit e = ground arith

  pub take_card-exit :
      (s : Scheduler) (exit : Exit) → take_card env job s ≡ err exit → is_granted exit.1 ≡ false
  unfolding take_card
  take_card-exit s =
      let loop =
        scan env job (length s.reclaimers) (keys s.reclaimers)
          (record { sched = s; stopped = [] }) in
      bind-NoGrant (loop >>= settle env) (check_room env job)
        (bind-NoGrant loop (settle env)
          (scan-NoGrant (length s.reclaimers) (keys s.reclaimers)
            (record { sched = s; stopped = [] }))
          settle-NoGrant)
        check_room-NoGrant
