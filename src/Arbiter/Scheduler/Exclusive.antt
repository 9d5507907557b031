-- ===== src/Arbiter/Scheduler/Exclusive.antt =====
-- arbiter/scheduler.py, `acquire`: how many jobs hold the card.
use local_ai_server.Prelude.{
  ==→≡, Bool-cases, Option, Option-cases, String, [], arith, contains, false, inl, inr, length,
  refl, some, text_Eq, sym, true, ◌==◌, ◌∙◌, ◌≡◌, ◌≢◌,
}
use local_ai_server.Prelude.Dict.{contains-keys, keys, lookup, lookup-adjust}
use local_ai_server.Prelude.Result.{>>=-eq-ok, Result, err, ok, ◌>>=◌}
use local_ai_server.Arbiter.Config.{JobConfig}
use local_ai_server.Arbiter.Reclaimers.{Inspect, grant}
use local_ai_server.Arbiter.Scheduler.State.{
  Reason, Scheduler, holding, job_for, now_holds, on_reclaimer,
}
use local_ai_server.Arbiter.Scheduler.Shrinks.{Shrinks, job_for-Shrinks, release_all-Shrinks}
use local_ai_server.Arbiter.Scheduler.Acquire.{
  Env, Exit, Scan, acquire, check_room, conclude, scan, settle, take_card,
}
use local_ai_server.Arbiter.Scheduler.Visits.{
  bind-Shrinks, scan-Shrinks, scan-ends, scan_ok-Shrinks, sched_of,
}

-- At most one job holds the card.
abbrev pub IsExclusive : Inspect → Scheduler → Type 0
IsExclusive inspect s =
    (m n : String) → holding inspect m s ≡ true → holding inspect n s ≡ true → m ≡ n

pub Shrinks-IsExclusive :
    (inspect : Inspect) (s s' : Scheduler)
    → Shrinks inspect s s'
    → IsExclusive inspect s
    → IsExclusive inspect s'
Shrinks-IsExclusive inspect s s' h ex m n hm hn = ex m n (h m hm) (h n hn)

module _ (env : Env) (job : JobConfig) where
  settle-Shrinks : (sc : Scan) → Shrinks env.inspect sc.sched (sched_of (settle env sc))
  unfolding settle holding
  settle-Shrinks sc n h =
      ground (arith, release_all-Shrinks env.inspect env.settle_arrivals sc.sched n)

  check_room-Shrinks : (sc : Scan) → Shrinks env.inspect sc.sched (sched_of (check_room env job sc))
  unfolding check_room holding
  check_room-Shrinks sc n h = ground arith

  pub take_card-Shrinks : (s : Scheduler) → Shrinks env.inspect s (sched_of (take_card env job s))
  unfolding take_card
  take_card-Shrinks s =
      let start : Scan = record { sched = s; stopped = [] } in
      let loop = scan env job (length s.reclaimers) (keys s.reclaimers) start in
      bind-Shrinks env job s (loop >>= settle env) (check_room env job)
        (bind-Shrinks env job s loop (settle env)
          (scan-Shrinks env job (length s.reclaimers) (keys s.reclaimers) start) settle-Shrinks)
        check_room-Shrinks

  ok-Shrinks :
      (f : Scan → Result Exit Scan) (sc sc' : Scan)
      → ((sc : Scan) → Shrinks env.inspect sc.sched (sched_of (f sc)))
      → f sc ≡ ok sc'
      → Shrinks env.inspect sc.sched sc'.sched
  ok-Shrinks f sc sc' h e n k = h sc n (rw e k)

  holding-listed :
      (n : String) (s : Scheduler)
      → holding env.inspect n s ≡ true
      → contains (keys s.reclaimers) n ≡ true
  unfolding holding
  holding-listed n s h = elim (Option-cases (lookup n s.reclaimers)) [
    | inl e ↦ ground arith
    | inr (r, e) ↦ contains-keys n s.reclaimers r e
  ]

  -- When everything before the grant went well, nobody else holds the card.
  pub take_card-clears :
      (s : Scheduler) (sc : Scan)
      → take_card env job s ≡ ok sc
      → (n : String) → n ≢ job.name
      → holding env.inspect n sc.sched ≡ false
  unfolding take_card
  take_card-clears s sc h n ne =
      let start : Scan = record { sched = s; stopped = [] } in
      let loop = scan env job (length s.reclaimers) (keys s.reclaimers) start in
      let (sc2, e2, h2) = >>=-eq-ok (loop >>= settle env) (check_room env job) h in
      let (sc1, e1, h1) = >>=-eq-ok loop (settle env) e2 in
      elim (Bool-cases (holding env.inspect n sc.sched)) [
        | inl still ↦
            let in2 = ok-Shrinks (check_room env job) sc2 sc check_room-Shrinks h2 n still in
            let in1 = ok-Shrinks (settle env) sc1 sc2 settle-Shrinks h1 n in2 in
            let in0 =
              scan_ok-Shrinks env job (length s.reclaimers) (keys s.reclaimers) start sc1 e1 n
                in1 in
            cc (
              in1,
              scan-ends env job (length s.reclaimers) (keys s.reclaimers) start sc1 e1 n ne
                  (holding-listed n s in0),
            )
        | inr e ↦ e
      ]

  holding-grant :
      (n : String) (s : Scheduler) (h : Option String) (why : Reason)
      → n ≢ job.name
      → holding env.inspect n
          (record (on_reclaimer job.name (grant env.now) s) { holder = h; last_reason = why })
        ≡ holding env.inspect n s
  unfolding holding on_reclaimer
  holding-grant n s h why ne =
      ground
        (arith, lookup-adjust job.name n (grant env.now) s.reclaimers, text_Eq.test_iff job.name n)

  conclude-IsExclusive :
      (s : Scheduler) (m : Result Exit Scan)
      → IsExclusive env.inspect s
      → Shrinks env.inspect s (sched_of m)
      → ((sc : Scan)
          → m ≡ ok sc
          → (n : String) → n ≢ job.name
          → holding env.inspect n sc.sched ≡ false)
      → IsExclusive env.inspect (conclude env job m).0
  unfolding conclude
  conclude-IsExclusive s (err exit) ex shrinks clears m n hm hn =
      Shrinks-IsExclusive env.inspect s exit.0 shrinks ex m n hm hn
  conclude-IsExclusive s (ok sc) ex shrinks clears m n hm hn = only m hm ∙ sym (only n hn)
    where
      only : (n : String) → holding env.inspect n (conclude env job (ok sc)).0 ≡ true → n ≡ job.name
      only n h = elim (Bool-cases (n == job.name)) [
        | inl e ↦ ==→≡ n job.name e
        | inr e ↦
            let ne : n ≢ job.name = λ same. cc ((text_Eq.test_iff n job.name).1 same) in
            absurd (
              cc (
                h,
                holding-grant n sc.sched (some job.name) (now_holds job.name) ne,
                clears sc refl n ne,
              ))
      ]

-- If at most one job holds the card, then so after `acquire`, granted or not, with any releases
-- arriving while it waits and whatever the driver answers, where Docker's answer for each container
-- stays the same during the call.
pub acquire-IsExclusive :
    (env : Env) (name : String) (s : Scheduler)
    → IsExclusive env.inspect s
    → IsExclusive env.inspect (acquire env name s).0
unfolding acquire
acquire-IsExclusive env name s ex =
    let (job, s') = job_for name s in
    let ex' = Shrinks-IsExclusive env.inspect s s' (job_for-Shrinks env.inspect name s) ex in
    elim (Bool-cases (holding env.inspect job.name s')) [
      | inl e ↦ rw e ex'
      | inr e ↦ rw e (
          conclude-IsExclusive env job s' (take_card env job s') ex' (take_card-Shrinks env job s')
            (take_card-clears env job s'))
    ]
