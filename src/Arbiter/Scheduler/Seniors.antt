-- ===== src/Arbiter/Scheduler/Seniors.antt =====
-- arbiter/scheduler.py, `acquire`: a holder that the caller does not outrank.
use local_ai_server.Prelude.{
  ==→≡, Bool, Bool-cases, List, Option-cases, String, [], arith, contains, false, inl, inr, length,
  number_Eq, some, text_Eq, subst, true, ℕ, ◌==◌, ◌∷◌, ◌≡◌, ◌≢◌,
}
use local_ai_server.Prelude.Int.{lebℤ}
use local_ai_server.Prelude.Dict.{adjust, contains-keys, keys, lookup, lookup-adjust, lookup-insert}
use local_ai_server.Prelude.Result.{>>=-eq-ok, Result, err, ok, ◌>>=◌}
use local_ai_server.Arbiter.Config.{JobConfig, Kind, container, cooperative, unmanaged}
use local_ai_server.Arbiter.Reclaimers.{Reclaimer, ask_for, build, holds, take_back}
use local_ai_server.Arbiter.Scheduler.State.{
  Scheduler, holding, invented_job, job_for, not_outranked, release_all,
}
use local_ai_server.Arbiter.Scheduler.Shrinks.{job_for-Shrinks}
use local_ai_server.Arbiter.Scheduler.Acquire.{
  Env, Exit, Scan, acquire, after_reclaim, check_room, conclude, contend, reclaim_as, refuse,
  same_size, scan, settle, take_card, visit,
}
use local_ai_server.Arbiter.Scheduler.Exits.{Result-cases, is_granted, take_card-exit}
use local_ai_server.Arbiter.Scheduler.Exclusive.{IsExclusive}
use local_ai_server.Arbiter.Scheduler.Visits.{sched_of}

-- No release arrives during the call.
pub record IsQuiet (env : Env) : Type 0 where
  pub none_during_reclaim : (n : String) → env.arrivals n ≡ []
  pub none_during_settle : env.settle_arrivals ≡ []

module _ (env : Env) (quiet : IsQuiet env) (job : JobConfig) (n : String) (r : Reclaimer)
    (holds_n : holds env.inspect r ≡ true) (senior : lebℤ job.priority r.job.priority ≡ true)
    (ne : n ≢ job.name) where
  -- The entry of the senior job is as it was.
  abbrev Keeps : Scheduler → Type 0
  Keeps s = lookup n s.reclaimers ≡ some r

  -- A reclaim of another job leaves it alone.
  reclaim_as-Keeps :
      (k : Kind) (other : String) (q : Reclaimer) (s : Scheduler)
      → other ≢ n
      → Keeps s
      → Keeps (reclaim_as k env other q s).1
  unfolding reclaim_as
  reclaim_as-Keeps unmanaged other q s on h =
      ground (arith, lookup-adjust other n take_back s.reclaimers, text_Eq.test_iff other n)
  reclaim_as-Keeps container other q s on h =
      rw (quiet.none_during_reclaim other)
        (ground (arith, lookup-adjust other n take_back s.reclaimers, text_Eq.test_iff other n))
  reclaim_as-Keeps cooperative other q s on h = rw (quiet.none_during_reclaim other) (
      ground (
        arith,
        lookup-adjust other n ask_for s.reclaimers,
        lookup-adjust other n take_back (adjust other ask_for s.reclaimers),
        text_Eq.test_iff other n,
      ))

  after_reclaim-Keeps :
      (other : String) (stopped : List String) (b : Bool) (s : Scheduler)
      → Keeps s
      → Keeps (sched_of (after_reclaim other stopped (b, s)))
  unfolding after_reclaim
  after_reclaim-Keeps other stopped true s h = h
  after_reclaim-Keeps other stopped false s h = h

  contend-Keeps :
      (other : String) (q : Reclaimer) (sc : Scan)
      → other ≢ n
      → Keeps sc.sched
      → Keeps (sched_of (contend env job other q sc))
  unfolding contend
  contend-Keeps other q sc on h = ground (
    arith,
    after_reclaim-Keeps other sc.stopped (reclaim_as q.job.kind env other q sc.sched).0
        (reclaim_as q.job.kind env other q sc.sched).1,
    reclaim_as-Keeps q.job.kind other q sc.sched on h,
  )

  contend-refuses :
      (sc : Scan)
      → Keeps sc.sched
      → contend env job n r sc ≡ refuse (not_outranked n job.name) sc.sched
  unfolding contend
  contend-refuses sc h = rw senior

  visit-Keeps :
      (other : String) (sc : Scan) → Keeps sc.sched → Keeps (sched_of (visit env job other sc))
  unfolding visit
  visit-Keeps other sc h = elim (Option-cases (lookup other sc.sched.reclaimers)) [
    | inl e ↦ ground arith
    | inr (q, e) ↦ elim (Bool-cases (other == n)) [
      | inl same ↦
          let same_name = ==→≡ other n same in
          let same_entry : some q ≡ some r = cc in ground (arith, contend-refuses sc)
      | inr distinct ↦
          let on : other ≢ n = λ p. cc ((text_Eq.test_iff other n).1 p) in
          ground (arith, contend-Keeps other q sc on)
    ]
  ]

  -- The loop does not get past the senior job.
  visit-stops : (sc sc' : Scan) → Keeps sc.sched → visit env job n sc ≢ ok sc'
  unfolding visit
  visit-stops sc sc' h e = ground (arith, contend-refuses sc, text_Eq.test_iff n job.name)

  bind-Keeps :
      (m : Result Exit Scan) (f : Scan → Result Exit Scan)
      → Keeps (sched_of m)
      → ((sc : Scan) → Keeps sc.sched → Keeps (sched_of (f sc)))
      → Keeps (sched_of (m >>= f))
  bind-Keeps (ok sc) f h k = k sc h
  bind-Keeps (err exit) f h k = h

  same_size-Keeps : (size : ℕ) (sc : Scan) → Keeps sc.sched → Keeps (sched_of (same_size size sc))
  unfolding same_size
  same_size-Keeps size sc h = ground arith

  scan-Keeps :
      (size : ℕ) (names : List String) (sc : Scan)
      → Keeps sc.sched
      → Keeps (sched_of (scan env job size names sc))
  unfolding scan
  scan-Keeps size [] sc h = same_size-Keeps size sc h
  scan-Keeps size (x ∷ xs) sc h =
      bind-Keeps (same_size size sc >>= visit env job x) (scan env job size xs)
        (bind-Keeps (same_size size sc) (visit env job x) (same_size-Keeps size sc h)
          (visit-Keeps x))
        (scan-Keeps size xs)

  scan-stops :
      (size : ℕ) (names : List String) (sc sc' : Scan)
      → Keeps sc.sched
      → contains names n ≡ true
      → scan env job size names sc ≢ ok sc'
  unfolding scan contains
  scan-stops size [] sc sc' h m e = cc
  scan-stops size (x ∷ xs) sc sc' h m e =
      let (sc2, e2, rest) =
        >>=-eq-ok (same_size size sc >>= visit env job x) (scan env job size xs) e in
      let (sc1, e1, v) = >>=-eq-ok (same_size size sc) (visit env job x) e2 in
      let h1 : Keeps sc1.sched = subst (λ m. Keeps (sched_of m)) e1 (same_size-Keeps size sc h) in
      elim (Bool-cases (x == n)) [
        | inl same ↦
            visit-stops sc1 sc2 h1 (subst (λ y. visit env job y sc1 ≡ ok sc2) (==→≡ x n same) v)
        | inr distinct ↦
            scan-stops size xs sc2 sc' (subst (λ m. Keeps (sched_of m)) v (visit-Keeps x sc1 h1))
              (ground arith) rest
      ]

  settle-Keeps : (sc : Scan) → Keeps sc.sched → Keeps (sched_of (settle env sc))
  unfolding settle release_all
  settle-Keeps sc h = rw (quiet.none_during_settle) (ground arith)

  check_room-Keeps : (sc : Scan) → Keeps sc.sched → Keeps (sched_of (check_room env job sc))
  unfolding check_room
  check_room-Keeps sc h = ground arith

  take_card-Keeps : (s : Scheduler) → Keeps s → Keeps (sched_of (take_card env job s))
  unfolding take_card
  take_card-Keeps s h =
      let loop =
        scan env job (length s.reclaimers) (keys s.reclaimers)
          (record { sched = s; stopped = [] }) in
      bind-Keeps (loop >>= settle env) (check_room env job)
        (bind-Keeps loop (settle env)
          (scan-Keeps (length s.reclaimers) (keys s.reclaimers) (record { sched = s; stopped = [] })
            h)
          settle-Keeps)
        check_room-Keeps

  take_card-stops : (s : Scheduler) (sc : Scan) → Keeps s → take_card env job s ≢ ok sc
  unfolding take_card
  take_card-stops s sc h e =
      let loop =
        scan env job (length s.reclaimers) (keys s.reclaimers)
          (record { sched = s; stopped = [] }) in
      let (sc2, e2, rest2) = >>=-eq-ok (loop >>= settle env) (check_room env job) e in
      let (sc1, e1, rest1) = >>=-eq-ok loop (settle env) e2 in
      scan-stops (length s.reclaimers) (keys s.reclaimers) (record { sched = s; stopped = [] }) sc1
        h (contains-keys n s.reclaimers r h) e1

take_card-refuses :
    (env : Env) (quiet : IsQuiet env) (job : JobConfig) (n : String) (r : Reclaimer) (s : Scheduler)
    → holds env.inspect r ≡ true
    → lebℤ job.priority r.job.priority ≡ true
    → n ≢ job.name
    → lookup n s.reclaimers ≡ some r
    → (is_granted (conclude env job (take_card env job s)).1 ≡ false)
      × (lookup n (conclude env job (take_card env job s)).0.reclaimers ≡ some r)
unfolding conclude
take_card-refuses env quiet job n r s held senior ne h = elim (Result-cases (take_card env job s)) [
  | inl (sc, e) ↦ absurd (take_card-stops env quiet job n r held senior ne s sc h e)
  | inr (exit, e) ↦
      let kept = take_card-Keeps env quiet job n r held senior ne s h in
      let not_granted = take_card-exit env job s exit e in rw e (not_granted, rw e at kept)
]

job_for-Keeps :
    (name n : String) (r : Reclaimer) (s : Scheduler)
    → lookup n s.reclaimers ≡ some r
    → lookup n (job_for name s).1.reclaimers ≡ some r
unfolding job_for
job_for-Keeps name n r s h =
    ground (
      arith,
      lookup-insert name n (build (invented_job name)) s.reclaimers,
      text_Eq.test_iff name n,
    )

-- If another job holds the card with at least the caller's priority, nobody else does, and no
-- release arrives during the call, then `acquire` does not grant the card and leaves the entry
-- of that job, its lease included, as it was, whatever else Docker and the driver answer.
pub acquire-keeps_senior :
    (env : Env) (name n : String) (r : Reclaimer) (s : Scheduler)
    → IsQuiet env
    → IsExclusive env.inspect s
    → lookup n s.reclaimers ≡ some r
    → holds env.inspect r ≡ true
    → lebℤ (job_for name s).0.priority r.job.priority ≡ true
    → n ≢ (job_for name s).0.name
    → (is_granted (acquire env name s).1 ≡ false)
      × (lookup n (acquire env name s).0.reclaimers ≡ some r)
unfolding acquire holding
acquire-keeps_senior env name n r s quiet ex l held senior ne =
    let (job, s') = job_for name s in
    let l' = job_for-Keeps name n r s l in
    let n_holds : holding env.inspect n s' ≡ true = ground arith in
    elim (Bool-cases (holding env.inspect job.name s')) [
      | inl e ↦ absurd (
          ne (
            ex n job.name (job_for-Shrinks env.inspect name s n n_holds)
              (job_for-Shrinks env.inspect name s job.name e)))
      | inr e ↦ rw e (take_card-refuses env quiet job n r s' held senior ne l')
    ]
