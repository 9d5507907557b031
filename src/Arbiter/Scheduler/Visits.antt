-- ===== src/Arbiter/Scheduler/Visits.antt =====
-- What the loop of `acquire` does to the leases that it goes past.
use local_ai_server.Prelude.{
  ==→≡, Bool, Bool-cases, List, Option-cases, String, [], arith, contains, false, inl, inr, refl,
  text_Eq, sym, true, ℕ, ◌==◌, ◌∙◌, ◌∷◌, ◌≡◌, ◌≢◌,
}
use local_ai_server.Prelude.Dict.{lookup}
use local_ai_server.Prelude.Result.{>>=-eq-ok, Result, err, ok, ◌>>=◌}
use local_ai_server.Arbiter.Config.{JobConfig, Kind, container, cooperative, unmanaged}
use local_ai_server.Arbiter.Reclaimers.{Reclaimer, ask_for, holds}
use local_ai_server.Arbiter.Scheduler.State.{
  Reason, Scheduler, holding, not_outranked, not_reclaimed, on_reclaimer, release_all,
}
use local_ai_server.Arbiter.Scheduler.Shrinks.{
  Shrinks, ask_for-Shrinks, holding-take_back, release_all-Shrinks, take_back-Shrinks,
}
use local_ai_server.Arbiter.Scheduler.Acquire.{
  Env, Exit, Scan, after_reclaim, contend, reclaim_as, same_size, scan, visit,
}

-- The state that a step leaves, whether the loop goes on or returns.
abbrev pub sched_of : Result Exit Scan → Scheduler
sched_of (ok sc) = sc.sched
sched_of (err exit) = exit.0

module _ (env : Env) where
  pub reclaim_as-Shrinks :
      (k : Kind) (name : String) (r : Reclaimer) (s : Scheduler)
      → Shrinks env.inspect s (reclaim_as k env name r s).1
  unfolding reclaim_as
  reclaim_as-Shrinks unmanaged name r s n h = take_back-Shrinks env.inspect name s n h
  reclaim_as-Shrinks container name r s n h =
      let s' = release_all env.inspect (env.arrivals name) s in
      release_all-Shrinks env.inspect (env.arrivals name) s n
        (ground (arith, take_back-Shrinks env.inspect name s' n))
  reclaim_as-Shrinks cooperative name r s n h =
      let asked = on_reclaimer name ask_for s in
      let s' = release_all env.inspect (env.arrivals name) asked in
      ground (
        arith,
        take_back-Shrinks env.inspect name s' n,
        release_all-Shrinks env.inspect (env.arrivals name) asked n,
        ask_for-Shrinks env.inspect name s n,
      )

  pub reclaim_as-ends :
      (k : Kind) (name : String) (r : Reclaimer) (s : Scheduler)
      → r.held ≡ true
      → (reclaim_as k env name r s).0 ≡ true
      → holding env.inspect name (reclaim_as k env name r s).1 ≡ false
  unfolding reclaim_as
  reclaim_as-ends unmanaged name r s held done = holding-take_back env.inspect name s
  reclaim_as-ends container name r s held done =
      let s' = release_all env.inspect (env.arrivals name) s in
      ground (arith, holding-take_back env.inspect name s')
  reclaim_as-ends cooperative name r s held done =
      let s' = release_all env.inspect (env.arrivals name) (on_reclaimer name ask_for s) in
      ground (arith, holding-take_back env.inspect name s')

  holding-reason :
      (reason : Reason) (n : String) (s : Scheduler)
      → holding env.inspect n (record s { last_reason = reason }) ≡ holding env.inspect n s
  unfolding holding
  holding-reason reason n s = refl

  after_reclaim-Shrinks :
      (other : String) (stopped : List String) (b : Bool) (s : Scheduler) (n : String)
      → holding env.inspect n (sched_of (after_reclaim other stopped (b, s)))
        ≡ holding env.inspect n s
  unfolding after_reclaim
  after_reclaim-Shrinks other stopped true s n = refl
  after_reclaim-Shrinks other stopped false s n = holding-reason (not_reclaimed other) n s

  module _ (job : JobConfig) where
    contend-Shrinks :
        (other : String) (r : Reclaimer) (sc : Scan)
        → Shrinks env.inspect sc.sched (sched_of (contend env job other r sc))
    unfolding contend
    contend-Shrinks other r sc n h = ground (
      arith,
      reclaim_as-Shrinks r.job.kind other r sc.sched n,
      after_reclaim-Shrinks other sc.stopped (reclaim_as r.job.kind env other r sc.sched).0
          (reclaim_as r.job.kind env other r sc.sched).1 n,
      holding-reason (not_outranked other job.name) n sc.sched,
    )

    pub visit-Shrinks :
        (other : String) (sc : Scan)
        → Shrinks env.inspect sc.sched (sched_of (visit env job other sc))
    unfolding visit
    visit-Shrinks other sc n h = elim (Option-cases (lookup other sc.sched.reclaimers)) [
      | inl e ↦ ground arith
      | inr (r, e) ↦ ground (arith, contend-Shrinks other r sc n)
    ]

    holds-held : (r : Reclaimer) → holds env.inspect r ≡ true → r.held ≡ true
    unfolding holds
    holds-held r h = ground arith

    contend-ends :
        (other : String) (r : Reclaimer) (sc sc' : Scan)
        → r.held ≡ true
        → contend env job other r sc ≡ ok sc'
        → holding env.inspect other sc'.sched ≡ false
    unfolding contend after_reclaim
    contend-ends other r sc sc' held h =
        ground (arith, reclaim_as-ends r.job.kind other r sc.sched held)

    -- The loop goes on past another job only if that does not hold the card any more.
    pub visit-ends :
        (other : String) (sc sc' : Scan)
        → other ≢ job.name
        → visit env job other sc ≡ ok sc'
        → holding env.inspect other sc'.sched ≡ false
    unfolding visit holding
    visit-ends other sc sc' ne h = elim (Option-cases (lookup other sc.sched.reclaimers)) [
      | inl e ↦ ground (arith, text_Eq.test_iff other job.name)
      | inr (r, e) ↦
          ground (arith, text_Eq.test_iff other job.name, holds-held r, contend-ends other r sc sc')
    ]

    same_size_lem : (size : ℕ) (sc sc' : Scan) → same_size size sc ≡ ok sc' → sc ≡ sc'
    unfolding same_size
    same_size_lem size sc sc' h = ground arith

    same_size-sched : (size : ℕ) (sc : Scan) → sched_of (same_size size sc) ≡ sc.sched
    unfolding same_size
    same_size-sched size sc = ground arith

    pub bind-Shrinks :
        (s : Scheduler) (m : Result Exit Scan) (f : Scan → Result Exit Scan)
        → Shrinks env.inspect s (sched_of m)
        → ((sc : Scan) → Shrinks env.inspect sc.sched (sched_of (f sc)))
        → Shrinks env.inspect s (sched_of (m >>= f))
    bind-Shrinks s (ok sc) f hm hf n h = hm n (hf sc n h)
    bind-Shrinks s (err exit) f hm hf n h = hm n h

    pub scan-Shrinks :
        (size : ℕ) (names : List String) (sc : Scan)
        → Shrinks env.inspect sc.sched (sched_of (scan env job size names sc))
    unfolding scan
    scan-Shrinks size [] sc n h = rw (same_size-sched size sc) at h
    scan-Shrinks size (x ∷ xs) sc n h =
        bind-Shrinks sc.sched (same_size size sc >>= visit env job x) (scan env job size xs)
          (bind-Shrinks sc.sched (same_size size sc) (visit env job x)
            (λ n h. rw (same_size-sched size sc) at h) (visit-Shrinks x))
          (scan-Shrinks size xs) n h

    pub scan_ok-Shrinks :
        (size : ℕ) (names : List String) (sc sc' : Scan)
        → scan env job size names sc ≡ ok sc'
        → Shrinks env.inspect sc.sched sc'.sched
    scan_ok-Shrinks size names sc sc' e n h = scan-Shrinks size names sc n (rw e h)

    -- If the loop ends, none of the jobs that it visited holds the card but the caller.
    pub scan-ends :
        (size : ℕ) (names : List String) (sc sc' : Scan)
        → scan env job size names sc ≡ ok sc'
        → (n : String) → n ≢ job.name
        → contains names n ≡ true
        → holding env.inspect n sc'.sched ≡ false
    unfolding scan contains
    scan-ends size [] sc sc' h n ne m = cc
    scan-ends size (x ∷ xs) sc sc' h n ne m =
        let (sc2, e2, h2) =
          >>=-eq-ok (same_size size sc >>= visit env job x) (scan env job size xs) h in
        let (sc1, e1, v) = >>=-eq-ok (same_size size sc) (visit env job x) e2 in
        elim (Bool-cases (x == n)) [
          | inl same ↦
              let x≡n = ==→≡ x n same in
              let gone = visit-ends x sc1 sc2 (λ e. ne (sym x≡n ∙ e)) v in
              elim (Bool-cases (holding env.inspect n sc'.sched)) [
                | inl still ↦ cc (scan_ok-Shrinks size xs sc2 sc' h2 n still, x≡n, gone)
                | inr e ↦ e
              ]
          | inr other ↦ scan-ends size xs sc2 sc' h2 n ne (ground arith)
        ]
