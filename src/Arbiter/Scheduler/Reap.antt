-- ===== src/Arbiter/Scheduler/Reap.antt =====
-- arbiter/scheduler.py, `reap`: clear the leases of dead holders, then say who holds the card.
-- It runs under the lock of `acquire`; `stale_after` is COOPERATIVE_STALE_AFTER.
use local_ai_server.Prelude.{
  Bool, List, Option, String, [], false, if◌then◌else◌, none, not, some, text_Eq, true, ℕ, ◌&&◌,
  ◌∷◌,
}
use local_ai_server.Arbiter.Config.{JobConfig, Kind, container, cooperative, unmanaged}
use local_ai_server.Arbiter.Reclaimers.{Inspect, Reclaimer, forget, holds, is_stale}
use local_ai_server.Arbiter.Scheduler.State.{
  Reason, Scheduler, holding, idle, now_holds, on_reclaimer,
}

abbrev pub is_cooperative : Kind → Bool
is_cooperative unmanaged = false
is_cooperative container = false
is_cooperative cooperative = true

-- The body of the loop of _drop_dead_leases.
unfoldable pub drop_dead : ℕ → Inspect → ℕ → Reclaimer → Reclaimer
unfolding holds forget is_stale
drop_dead stale_after inspect now r =
    if r.held && not (holds inspect r)
    then forget r
    else if is_cooperative r.job.kind && r.held && is_stale stale_after now r
    then forget r
    else r

unfoldable pub drop_dead_leases : ℕ → Inspect → ℕ → List JobConfig → Scheduler → Scheduler
unfolding on_reclaimer drop_dead
drop_dead_leases stale_after inspect now [] s = s
drop_dead_leases stale_after inspect now (job ∷ jobs) s =
    drop_dead_leases stale_after inspect now jobs
      (on_reclaimer job.name (drop_dead stale_after inspect now) s)

-- _holding_job, over the table that is sorted by priority.
unfoldable pub holding_job : Inspect → List JobConfig → Scheduler → Option String
unfolding holding
holding_job inspect [] s = none
holding_job inspect (job ∷ jobs) s =
    if holding inspect job.name s then some job.name else holding_job inspect jobs s

abbrev pub reason_of : Option String → Reason
reason_of none = idle
reason_of (some name) = now_holds name

unfoldable pub reap : ℕ → Inspect → ℕ → Scheduler → Scheduler
unfolding drop_dead_leases holding_job
reap stale_after inspect now s =
    let s' = drop_dead_leases stale_after inspect now s.jobs s in
    let holder = holding_job inspect s'.jobs s' in
    record s' { holder = holder; last_reason = reason_of holder }
