-- ===== src/Arbiter/Scheduler/Acquire.antt =====
-- arbiter/scheduler.py, `acquire`: reclaim from all that the caller outranks, wait for the
-- driver, look for room, grant. `release` takes no lock, so releases may arrive in each wait:
-- an `Env` lists them, with all that one call learns from Docker, the driver and the clock.
use local_ai_server.Prelude.{
  Bool, List, Option, String, [], false, if◌then◌else◌, is_empty, length, number_Eq, none, not,
  some, text_Eq, true, ℕ, ◌&&◌, ◌++◌, ◌==◌, ◌||◌, ◌∷◌,
}
use local_ai_server.Prelude.Dict.{keys, lookup}
use local_ai_server.Prelude.Int.{lebℤ, pos, ℤ}
use local_ai_server.Prelude.Result.{Result, err, ok, ◌>>=◌}
use local_ai_server.Arbiter.Config.{JobConfig, Kind, container, cooperative, unmanaged}
use local_ai_server.Arbiter.Reclaimers.{
  Inspect, KillRun, Reclaimer, ask_for, grant, holds, reclaim_container, take_back,
}
use local_ai_server.Arbiter.Scheduler.State.{
  Reason, Scheduler, holding, job_for, no_room, not_dropped, not_outranked, not_reclaimed,
  now_holds, on_reclaimer, release_all,
}

pub record Env : Type 0 where
  pub inspect : Inspect
  -- how the kill of a job's container goes
  pub kills : String → KillRun
  -- the releases that arrive while that job is reclaimed
  pub arrivals : String → List String
  -- the readings of free memory until it settles or the time is up, `none` for a failed one
  pub first_reading : Option ℤ
  pub readings : List (Option ℤ)
  pub settle_arrivals : List String
  -- the reading that `_fits` makes
  pub free_mb : Option ℤ
  pub now : ℕ

pub data Detail : Type 0 where
  already_held : Detail
  nothing_was_running : Detail
  reclaimed_from : List String → Detail

-- `raised` is Python's RuntimeError for a dictionary that grows while a loop goes through it.
pub data Outcome : Type 0 where
  granted : Detail → Outcome
  refused : Reason → Outcome
  raised : Outcome

-- What the loop carries. An early `return` is an error of `Result`.
pub record Scan : Type 0 where
  pub sched : Scheduler
  pub stopped : List String

abbrev pub Exit : Type 0
Exit = Scheduler × Outcome

-- `self._last_reason = …; return False, self._last_reason`
unfoldable pub refuse : Reason → Scheduler → Result Exit Scan
refuse reason s = err (record s { last_reason = reason }, refused reason)

unfoldable pub has_let_go : String → Scheduler → Bool
unfolding lookup
has_let_go name s = elim (lookup name s.reclaimers) [ none ↦ false | some r ↦ r.let_go ]

-- `await reclaimer.reclaim(remaining)`
unfoldable pub reclaim_as : Kind → Env → String → Reclaimer → Scheduler → Bool × Scheduler
unfolding on_reclaimer take_back ask_for release_all reclaim_container has_let_go
reclaim_as unmanaged env name r s = (true, on_reclaimer name take_back s)
reclaim_as container env name r s =
    let s' = release_all env.inspect (env.arrivals name) s in
    if (reclaim_container (env.kills name) r).0
    then (true, on_reclaimer name take_back s')
    else (false, s')
reclaim_as cooperative env name r s =
    let s' = release_all env.inspect (env.arrivals name) (on_reclaimer name ask_for s) in
    if not r.held
    then (true, s)
    else if has_let_go name s'
    then (true, on_reclaimer name take_back s')
    else (false, s')

unfoldable pub after_reclaim : String → List String → Bool × Scheduler → Result Exit Scan
unfolding refuse
after_reclaim other stopped (true, s) = ok (record { sched = s; stopped = stopped ++ other ∷ [] })
after_reclaim other stopped (false, s) = refuse (not_reclaimed other) s

-- The body of the loop for a job that holds the card.
unfoldable pub contend : Env → JobConfig → String → Reclaimer → Scan → Result Exit Scan
unfolding refuse reclaim_as after_reclaim
contend env job other r sc =
    if lebℤ job.priority r.job.priority
    then refuse (not_outranked other job.name) sc.sched
    else after_reclaim other sc.stopped (reclaim_as r.job.kind env other r sc.sched)

-- One turn of the loop over `self.reclaimers`.
unfoldable pub visit : Env → JobConfig → String → Scan → Result Exit Scan
unfolding lookup holds contend
visit env job other sc =
    if other == job.name then ok sc else elim (lookup other sc.sched.reclaimers) [
      | none ↦ ok sc
      | some r ↦ if holds env.inspect r then contend env job other r sc else ok sc
    ]

-- Python looks at the dictionary's size each time the loop asks for the next item.
unfoldable pub same_size : ℕ → Scan → Result Exit Scan
same_size size sc = if length sc.sched.reclaimers == size then ok sc else err (sc.sched, raised)

unfoldable pub scan : Env → JobConfig → ℕ → List String → Scan → Result Exit Scan
unfolding same_size visit
scan env job size [] sc = same_size size sc
scan env job size (other ∷ rest) sc =
    same_size size sc >>= visit env job other >>= scan env job size rest

-- The loop of _wait_for_vram_to_settle, from the previous reading on.
unfoldable pub stops_climbing : ℤ → List (Option ℤ) → Bool
stops_climbing previous [] = false
stops_climbing previous (none ∷ rest) = true
stops_climbing previous (some free ∷ rest) =
    if lebℤ free previous then true else stops_climbing free rest

unfoldable pub vram_settles : Option ℤ → List (Option ℤ) → Bool
unfolding stops_climbing
vram_settles none readings = true
vram_settles (some previous) readings = stops_climbing previous readings

-- _fits
unfoldable pub fits : JobConfig → Option ℤ → Bool
fits job none = true
fits job (some free) =
    lebℤ job.required_mb (pos 0) && lebℤ (pos 0) job.required_mb || lebℤ job.required_mb free

unfoldable pub settle : Env → Scan → Result Exit Scan
unfolding release_all vram_settles refuse
settle env sc =
    let s' = release_all env.inspect env.settle_arrivals sc.sched in
    if is_empty sc.stopped
    then ok sc
    else if vram_settles env.first_reading env.readings
    then ok (record sc { sched = s' })
    else refuse not_dropped s'

unfoldable pub check_room : Env → JobConfig → Scan → Result Exit Scan
unfolding fits refuse
check_room env job sc =
    if fits job env.free_mb then ok sc else refuse (no_room job.name job.required_mb) sc.sched

abbrev pub detail_of : List String → Detail
detail_of [] = nothing_was_running
detail_of (n ∷ ns) = reclaimed_from (n ∷ ns)

-- The last lines of `acquire`, and the early exits.
unfoldable pub conclude : Env → JobConfig → Result Exit Scan → Exit
unfolding on_reclaimer grant
conclude env job (err exit) = exit
conclude env job (ok sc) = (
  record (on_reclaimer job.name (grant env.now) sc.sched) {
    holder = some job.name;
    last_reason = now_holds job.name;
  },
  granted (detail_of sc.stopped),
)

-- All of `acquire` after the test for a lease that is already held.
unfoldable pub take_card : Env → JobConfig → Scheduler → Result Exit Scan
unfolding scan settle check_room keys
take_card env job s =
    scan env job (length s.reclaimers) (keys s.reclaimers) (record { sched = s; stopped = [] })
    >>= settle env
    >>= check_room env job

-- acquire(name)
unfoldable pub acquire : Env → String → Scheduler → Exit
unfolding job_for holding take_card conclude
acquire env name s =
    let (job, s') = job_for name s in
    if holding env.inspect job.name s'
    then (s', granted already_held)
    else conclude env job (take_card env job s')
