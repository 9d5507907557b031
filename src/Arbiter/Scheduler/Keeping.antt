-- ===== src/Arbiter/Scheduler/Keeping.antt =====
-- A proof rule: what the single changes to the scheduler keep, its operations keep.
use local_ai_server.Prelude.{
  Bool, Bool-cases, List, Option, Option-cases, String, [], arith, false, if◌then◌else◌, inl, inr,
  is_empty, length, number_Eq, none, not, refl, some, text_Eq, true, ℕ, ◌==◌, ◌∷◌, ◌≡◌,
}
use local_ai_server.Prelude.Dict.{keys, lookup}
use local_ai_server.Prelude.Int.{lebℤ}
use local_ai_server.Prelude.Result.{Result, err, ok, ◌>>=◌}
use local_ai_server.Arbiter.Config.{JobConfig, Kind, container, cooperative, unmanaged}
use local_ai_server.Arbiter.Reclaimers.{
  Inspect, Reclaimer, ask_for, forget, grant, holds, reclaim_container, take_back,
}
use local_ai_server.Arbiter.Scheduler.State.{
  Reason, Scheduler, add_invented, clear_holder, holding, idle, is_holder, job_for, no_room,
  not_dropped, not_outranked, not_reclaimed, now_holds, on_reclaimer, release, release_all,
}
use local_ai_server.Arbiter.Scheduler.Acquire.{
  Env, Exit, Scan, acquire, after_reclaim, check_room, conclude, contend, fits, has_let_go,
  reclaim_as, refuse, same_size, scan, settle, take_card, visit, vram_settles,
}
use local_ai_server.Arbiter.Scheduler.Visits.{sched_of}
use local_ai_server.Arbiter.Scheduler.Reap.{
  drop_dead, drop_dead_leases, holding_job, reap, reason_of,
}

-- A method of a reclaimer that does not touch its job.
abbrev pub SameJob : (Reclaimer → Reclaimer) → Type 0
SameJob f = (r : Reclaimer) → (f r).job ≡ r.job

pub record IsKept (P : Scheduler → Type 0) : Type 0 where
  pub by_method :
      (k : String) (f : Reclaimer → Reclaimer) (s : Scheduler)
      → SameJob f
      → P s
      → P (on_reclaimer k f s)
  pub by_new_caller :
      (k : String) (s : Scheduler) → lookup k s.reclaimers ≡ none → P s → P (add_invented k s)
  pub by_note :
      (h : Option String) (why : Reason) (s : Scheduler)
      → P s
      → P (record s { holder = h; last_reason = why })

take_back-SameJob : SameJob take_back
unfolding take_back
take_back-SameJob r = refl

ask_for-SameJob : SameJob ask_for
unfolding ask_for
ask_for-SameJob r = refl

forget-SameJob : SameJob forget
unfolding forget
forget-SameJob r = ground arith

grant-SameJob : (now : ℕ) → SameJob (grant now)
unfolding grant
grant-SameJob now r = ground arith

drop_dead-SameJob :
    (stale_after : ℕ) (inspect : Inspect) (now : ℕ) → SameJob (drop_dead stale_after inspect now)
unfolding drop_dead
drop_dead-SameJob stale_after inspect now r = ground (arith, forget-SameJob r)

module _ {P : Scheduler → Type 0} (kept : IsKept P) where
  job_for-kept : (name : String) (s : Scheduler) → P s → P (job_for name s).1
  unfolding job_for
  job_for-kept name s p = elim (Option-cases (lookup name s.reclaimers)) [
    | inl e ↦ rw (e, job_for) (kept.by_new_caller name s e p)
    | inr (r, e) ↦ rw (e, job_for) p
  ]

  clear_holder-kept : (k : String) (s : Scheduler) → P s → P (clear_holder k s)
  unfolding clear_holder
  clear_holder-kept k s p = elim (Bool-cases (is_holder s.holder k)) [
    | inl e ↦ rw e (kept.by_note none idle s p)
    | inr e ↦ rw e p
  ]

  pub release-kept :
      (inspect : Inspect) (name : String) (s : Scheduler) → P s → P (release inspect name s)
  unfolding release
  release-kept inspect name s p =
      let (job, s') = job_for name s in
      let p' = job_for-kept name s p in
      elim (Bool-cases (holding inspect job.name s')) [
        | inl e ↦ rw e (
            clear_holder-kept job.name (on_reclaimer job.name forget s')
              (kept.by_method job.name forget s' forget-SameJob p'))
        | inr e ↦ rw e p'
      ]

  release_all-kept :
      (inspect : Inspect) (names : List String) (s : Scheduler)
      → P s
      → P (release_all inspect names s)
  unfolding release_all
  release_all-kept inspect [] s p = p
  release_all-kept inspect (x ∷ xs) s p =
      release_all-kept inspect xs (release inspect x s) (release-kept inspect x s p)

  if-kept :
      (b : Bool) (s t : Scheduler)
      → P s
      → P t
      → P ((if◌then◌else◌ {A = Bool × Scheduler} b (true, s) (false, t)).1)
  if-kept true s t p q = p
  if-kept false s t p q = q

  taken-kept : (k : String) (s : Scheduler) → P s → P (on_reclaimer k take_back s)
  taken-kept k s p = kept.by_method k take_back s take_back-SameJob p

  reclaim_as-kept :
      (k : Kind) (env : Env) (name : String) (r : Reclaimer) (s : Scheduler)
      → P s
      → P (reclaim_as k env name r s).1
  unfolding reclaim_as
  reclaim_as-kept unmanaged env name r s p = taken-kept name s p
  reclaim_as-kept container env name r s p =
      let s' = release_all env.inspect (env.arrivals name) s in
      let p' = release_all-kept env.inspect (env.arrivals name) s p in
      if-kept ((reclaim_container (env.kills name) r).0) (on_reclaimer name take_back s') s'
        (taken-kept name s' p') p'
  reclaim_as-kept cooperative env name r s p =
      let asked = on_reclaimer name ask_for s in
      let s' = release_all env.inspect (env.arrivals name) asked in
      let p' =
        release_all-kept env.inspect (env.arrivals name) asked
          (kept.by_method name ask_for s ask_for-SameJob p) in
      elim (Bool-cases (not r.held)) [
        | inl e ↦ rw e p
        | inr e ↦ rw e (
            if-kept (has_let_go name s') (on_reclaimer name take_back s') s' (taken-kept name s' p')
              p')
      ]

  after_reclaim-kept :
      (other : String) (stopped : List String) (b : Bool) (s : Scheduler)
      → P s
      → P (sched_of (after_reclaim other stopped (b, s)))
  unfolding after_reclaim refuse
  after_reclaim-kept other stopped true s p = p
  after_reclaim-kept other stopped false s p = kept.by_note s.holder (not_reclaimed other) s p

  contend-kept :
      (env : Env) (job : JobConfig) (other : String) (r : Reclaimer) (sc : Scan)
      → P sc.sched
      → P (sched_of (contend env job other r sc))
  unfolding contend refuse
  contend-kept env job other r sc p = elim (Bool-cases (lebℤ job.priority r.job.priority)) [
    | inl e ↦ rw e (kept.by_note sc.sched.holder (not_outranked other job.name) sc.sched p)
    | inr e ↦ rw e (
        after_reclaim-kept other sc.stopped (reclaim_as r.job.kind env other r sc.sched).0
          (reclaim_as r.job.kind env other r sc.sched).1
          (reclaim_as-kept r.job.kind env other r sc.sched p))
  ]

  visit-kept :
      (env : Env) (job : JobConfig) (other : String) (sc : Scan)
      → P sc.sched
      → P (sched_of (visit env job other sc))
  unfolding visit
  visit-kept env job other sc p = elim (Bool-cases (other == job.name)) [
    | inl e ↦ rw e p
    | inr e ↦ elim (Option-cases (lookup other sc.sched.reclaimers)) [
      | inl l ↦ rw (e, l, visit) p
      | inr (r, l) ↦ elim (Bool-cases (holds env.inspect r)) [
        | inl h ↦ rw (e, l, visit, h) (contend-kept env job other r sc p)
        | inr h ↦ rw (e, l, visit, h) p
      ]
    ]
  ]

  bind-kept :
      (m : Result Exit Scan) (f : Scan → Result Exit Scan)
      → P (sched_of m)
      → ((sc : Scan) → P sc.sched → P (sched_of (f sc)))
      → P (sched_of (m >>= f))
  bind-kept (ok sc) f p k = k sc p
  bind-kept (err exit) f p k = p

  same_size-kept : (size : ℕ) (sc : Scan) → P sc.sched → P (sched_of (same_size size sc))
  unfolding same_size
  same_size-kept size sc p = elim (Bool-cases (length sc.sched.reclaimers == size)) [
    | inl e ↦ rw e p
    | inr e ↦ rw e p
  ]

  scan-kept :
      (env : Env) (job : JobConfig) (size : ℕ) (names : List String) (sc : Scan)
      → P sc.sched
      → P (sched_of (scan env job size names sc))
  unfolding scan
  scan-kept env job size [] sc p = same_size-kept size sc p
  scan-kept env job size (x ∷ xs) sc p =
      bind-kept (same_size size sc >>= visit env job x) (scan env job size xs)
        (bind-kept (same_size size sc) (visit env job x) (same_size-kept size sc p)
          (visit-kept env job x))
        (scan-kept env job size xs)

  settle-kept : (env : Env) (sc : Scan) → P sc.sched → P (sched_of (settle env sc))
  unfolding settle refuse
  settle-kept env sc p =
      let s' = release_all env.inspect env.settle_arrivals sc.sched in
      let p' = release_all-kept env.inspect env.settle_arrivals sc.sched p in
      elim (Bool-cases (is_empty sc.stopped)) [
        | inl e ↦ rw e p
        | inr e ↦ elim (Bool-cases (vram_settles env.first_reading env.readings)) [
          | inl v ↦ rw (e, v) p'
          | inr v ↦ rw (e, v) (kept.by_note s'.holder not_dropped s' p')
        ]
      ]

  check_room-kept :
      (env : Env) (job : JobConfig) (sc : Scan) → P sc.sched → P (sched_of (check_room env job sc))
  unfolding check_room refuse
  check_room-kept env job sc p = elim (Bool-cases (fits job env.free_mb)) [
    | inl e ↦ rw e p
    | inr e ↦ rw e (kept.by_note sc.sched.holder (no_room job.name job.required_mb) sc.sched p)
  ]

  conclude-kept :
      (env : Env) (job : JobConfig) (m : Result Exit Scan)
      → P (sched_of m)
      → P (conclude env job m).0
  unfolding conclude
  conclude-kept env job (err exit) p = p
  conclude-kept env job (ok sc) p =
      kept.by_note (some job.name) (now_holds job.name)
        (on_reclaimer job.name (grant env.now) sc.sched)
        (kept.by_method job.name (grant env.now) sc.sched (grant-SameJob env.now) p)

  take_card-kept :
      (env : Env) (job : JobConfig) (s : Scheduler) → P s → P (sched_of (take_card env job s))
  unfolding take_card
  take_card-kept env job s p =
      let loop =
        scan env job (length s.reclaimers) (keys s.reclaimers)
          (record { sched = s; stopped = [] }) in
      bind-kept (loop >>= settle env) (check_room env job)
        (bind-kept loop (settle env)
          (scan-kept env job (length s.reclaimers) (keys s.reclaimers)
            (record { sched = s; stopped = [] }) p)
          (settle-kept env))
        (check_room-kept env job)

  pub acquire-kept : (env : Env) (name : String) (s : Scheduler) → P s → P (acquire env name s).0
  unfolding acquire
  acquire-kept env name s p =
      let (job, s') = job_for name s in
      let p' = job_for-kept name s p in
      elim (Bool-cases (holding env.inspect job.name s')) [
        | inl e ↦ rw e p'
        | inr e ↦ rw e (conclude-kept env job (take_card env job s') (take_card-kept env job s' p'))
      ]

  drop_dead_leases-kept :
      (stale_after : ℕ) (inspect : Inspect) (now : ℕ) (jobs : List JobConfig) (s : Scheduler)
      → P s
      → P (drop_dead_leases stale_after inspect now jobs s)
  unfolding drop_dead_leases
  drop_dead_leases-kept stale_after inspect now [] s p = p
  drop_dead_leases-kept stale_after inspect now (j ∷ js) s p =
      drop_dead_leases-kept stale_after inspect now js
        (on_reclaimer j.name (drop_dead stale_after inspect now) s)
        (kept.by_method j.name (drop_dead stale_after inspect now) s
          (drop_dead-SameJob stale_after inspect now) p)

  pub reap-kept :
      (stale_after : ℕ) (inspect : Inspect) (now : ℕ) (s : Scheduler)
      → P s
      → P (reap stale_after inspect now s)
  unfolding reap
  reap-kept stale_after inspect now s p =
      let s' = drop_dead_leases stale_after inspect now s.jobs s in
      kept.by_note (holding_job inspect s'.jobs s') (reason_of (holding_job inspect s'.jobs s')) s'
        (drop_dead_leases-kept stale_after inspect now s.jobs s p)
