-- ===== src/Arbiter/Scheduler/State.antt =====
-- arbiter/scheduler.py: the state, the entry of a caller, and `release`.
use local_ai_server.Prelude.{
  Bool, List, Option, String, [], false, if◌then◌else◌, none, some, text_Eq, ◌++◌, ◌==◌, ◌∷◌,
}
use local_ai_server.Prelude.Dict.{Dict, adjust, insert, lookup}
use local_ai_server.Prelude.Int.{pos, ℤ}
use local_ai_server.Arbiter.Config.{JobConfig, sort_jobs, unmanaged}
use local_ai_server.Arbiter.Reclaimers.{Inspect, Reclaimer, build, forget, holds}

pub data Reason : Type 0 where
  startup : Reason
  idle : Reason
  now_holds : String → Reason
  not_outranked : String → String → Reason
  not_reclaimed : String → Reason
  not_dropped : Reason
  no_room : String → ℤ → Reason

pub record Scheduler : Type 0 where
  pub jobs : List JobConfig
  pub reclaimers : Dict String Reclaimer
  pub holder : Option String
  pub last_reason : Reason

unfoldable pub build_all : List JobConfig → Dict String Reclaimer
unfolding insert build
build_all [] = []
build_all (j ∷ js) = (j.name, build j) ∷ build_all js

-- Scheduler.__init__
unfoldable pub start : List JobConfig → Scheduler
unfolding build_all
start jobs = record {
  jobs = jobs;
  reclaimers = build_all jobs;
  holder = none;
  last_reason = startup;
}

-- JobConfig({"name": name, "kind": "none", "priority": 0})
unfoldable pub invented_job : String → JobConfig
invented_job name = record {
  name = name;
  kind = unmanaged;
  container = name;
  priority = pos 0;
  required_mb = pos 0;
  stop_timeout = pos 10;
}

-- _job_for, for a caller that is not in the table.
unfoldable pub add_invented : String → Scheduler → Scheduler
unfolding invented_job sort_jobs insert build
add_invented name s = record s {
  jobs = sort_jobs (s.jobs ++ invented_job name ∷ []);
  reclaimers = insert name (build (invented_job name)) s.reclaimers;
}

unfoldable pub job_for : String → Scheduler → JobConfig × Scheduler
unfolding add_invented invented_job lookup
job_for name s = elim (lookup name s.reclaimers) [
  | some r ↦ (r.job, s)
  | none ↦ (invented_job name, add_invented name s)
]

-- `await self.reclaimers[name].holds()`
unfoldable pub holding : Inspect → String → Scheduler → Bool
unfolding lookup holds
holding inspect name s = elim (lookup name s.reclaimers) [ none ↦ false | some r ↦ holds inspect r ]

-- A method call on the reclaimer of `name`.
unfoldable pub on_reclaimer : String → (Reclaimer → Reclaimer) → Scheduler → Scheduler
unfolding adjust
on_reclaimer name f s = record s { reclaimers = adjust name f s.reclaimers }

abbrev pub is_holder : Option String → String → Bool
is_holder none name = false
is_holder (some h) name = h == name

-- `if self._holder == job.name`
unfoldable pub clear_holder : String → Scheduler → Scheduler
clear_holder name s =
    if is_holder s.holder name then record s { holder = none; last_reason = idle } else s

-- release(name), with what Docker says at that time.
unfoldable pub release : Inspect → String → Scheduler → Scheduler
unfolding job_for holding on_reclaimer clear_holder forget
release inspect name s =
    let (job, s') = job_for name s in
    if holding inspect job.name s'
    then clear_holder job.name (on_reclaimer job.name forget s')
    else s'

-- The releases that arrive while `acquire` waits, in their order.
unfoldable pub release_all : Inspect → List String → Scheduler → Scheduler
unfolding release
release_all inspect [] s = s
release_all inspect (name ∷ names) s = release_all inspect names (release inspect name s)
