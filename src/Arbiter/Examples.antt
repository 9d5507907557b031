-- ===== src/Arbiter/Examples.antt =====
-- The job table of arbiter/jobs.yaml, runs of the arbiter on it, and the theorems at them.
use local_ai_server.Prelude.{
  List, String, [], arith, false, none, number_Eq, refl, some, text_Eq, true, ◌↔◌, ◌∷◌, ◌≡◌,
}
use local_ai_server.Prelude.Dict.{adjust, insert, keys, lookup}
use local_ai_server.Prelude.Int.{lebℤ, negsuc, pos, ℤ}
use local_ai_server.Prelude.Result.{err, ok}
use local_ai_server.Arbiter.Config.{
  JobConfig, Kind, RawJob, bad_kind, comes_before, container, cooperative, count_name, load_jobs,
  make_jobs, unmanaged,
}
use local_ai_server.Arbiter.Config.JobOrder.{IsSorted}
use local_ai_server.Arbiter.Config.Loading.{IsTable, load_jobs-IsTable}
use local_ai_server.Arbiter.Reclaimers.{
  Inspect, Reclaimer, ask_for, build, forget, grant, holds, kill_and_wait, take_back,
}
use local_ai_server.Arbiter.Scheduler.State.{
  Scheduler, holding, job_for, no_room, not_reclaimed, now_holds, release, start,
}
use local_ai_server.Arbiter.Scheduler.Acquire.{
  Env, acquire, fits, granted, raised, reclaim_as, reclaimed_from, refused, scan, vram_settles,
}
use local_ai_server.Arbiter.Scheduler.Exits.{is_granted}
use local_ai_server.Arbiter.Scheduler.Exclusive.{IsExclusive, acquire-IsExclusive}
use local_ai_server.Arbiter.Scheduler.Seniors.{acquire-keeps_senior}
use local_ai_server.Arbiter.Scheduler.Reap.{reap}
use local_ai_server.Arbiter.Scheduler.Reaping.{
  IsFirstHolding, IsLive, reap-IsFirstHolding, reap-IsLive,
}
use local_ai_server.Arbiter.Scheduler.Settling.{KeepsClimbing, stops_climbing_iff}
use local_ai_server.Arbiter.Scheduler.Consistency.{
  IsConsistent, Reach-IsConsistent, asks, here, next,
}
mod Admission

abbrev job : String → Kind → ℤ → ℤ → JobConfig
job name kind priority required_mb = record {
  name = name;
  kind = kind;
  container = name;
  priority = priority;
  required_mb = required_mb;
  stop_timeout = pos 10;
}

abbrev pub llm : JobConfig
llm = job "llm" unmanaged (pos 100) (pos 0)

abbrev pub video : JobConfig
video = job "video-processing" cooperative (pos 0) (pos 4096)

abbrev pub trainer : JobConfig
trainer = job "lora-trainer" cooperative (negsuc 9) (pos 4096)

abbrev raw : String → String → ℤ → ℤ → RawJob
raw name kind priority required_mb = record {
  name = some name;
  kind = some kind;
  container = none;
  priority = some priority;
  required_mb = some required_mb;
  stop_timeout = none;
}

abbrev entries : List RawJob
entries =
    raw "lora-trainer" "cooperative" (negsuc 9) (pos 4096)
    ∷ raw "llm" "none" (pos 100) (pos 0)
    ∷ raw "video-processing" "cooperative" (pos 0) (pos 4096)
    ∷ []

abbrev pub table : List JobConfig
table = llm ∷ video ∷ trainer ∷ []

load_jobs-entries : load_jobs (some entries) ≡ ok table
unfolding load_jobs count_name
load_jobs-entries = refl

make_jobs-entries : make_jobs entries ≡ ok (trainer ∷ llm ∷ video ∷ [])
unfolding make_jobs
make_jobs-entries = refl

load_jobs_bad_kind : load_jobs (some (raw "x" "vm" (pos 0) (pos 0) ∷ [])) ≡ err (bad_kind "vm")
unfolding load_jobs
load_jobs_bad_kind = refl

load_jobs-IsTable_example : IsTable (trainer ∷ llm ∷ video ∷ []) table
load_jobs-IsTable_example =
    load_jobs-IsTable entries (trainer ∷ llm ∷ video ∷ []) table make_jobs-entries load_jobs-entries

-- A call during which nothing else happens; the card has `free` MiB.
abbrev pub calm : ℤ → Env
calm free = record {
  inspect = λ c. none;
  kills =
      λ n. record { refuses = λ s. false; grace = []; after_kill = false ∷ []; still_up = false };
  arrivals = λ n. [];
  first_reading = some free;
  readings = some free ∷ [];
  settle_arrivals = [];
  free_mb = some free;
  now = 5;
}

-- The same, with the trainer releasing when it is asked to.
abbrev pub trainer_yields : Env
trainer_yields = record (calm (pos 20000)) { arrivals = λ n. "lora-trainer" ∷ [] }

-- The same, and a caller that nobody configured releases too.
abbrev stranger_releases : Env
stranger_releases = record (calm (pos 20000)) { arrivals = λ n. "lora-trainer" ∷ "bench" ∷ [] }

abbrev pub with_lease : JobConfig → Reclaimer
with_lease j = record { job = j; held = true; wanted = false; let_go = false; last_poll = 5 }

-- The state in which the trainer holds the card.
abbrev pub training : Scheduler
training = record {
  jobs = table;
  reclaimers =
      ("llm", record { job = llm; held = false; wanted = false; let_go = false; last_poll = 0 })
      ∷ (
        "video-processing",
        record { job = video; held = false; wanted = false; let_go = false; last_poll = 0 },
      )
      ∷ ("lora-trainer", with_lease trainer)
      ∷ [];
  holder = some "lora-trainer";
  last_reason = now_holds "lora-trainer";
}

runs : Unit {0}
unfolding acquire start holding job_for lookup insert adjust keys reclaim_as scan release holds
    grant forget take_back ask_for build fits kill_and_wait comes_before reap
runs = tt

start-trains : (acquire (calm (pos 20000)) "lora-trainer" (start table)).0 ≡ training
unfolding runs
start-trains = refl

llm_takes_over :
    (acquire trainer_yields "llm" training).1 ≡ granted (reclaimed_from ("lora-trainer" ∷ []))
unfolding runs
llm_takes_over = refl

-- The trainer does not let go: a refusal.
llm_waits_in_vain :
    (acquire (calm (pos 20000)) "llm" training).1 ≡ refused (not_reclaimed "lora-trainer")
unfolding runs
llm_waits_in_vain = refl

no_room_left :
    (acquire (calm (pos 1000)) "video-processing" (start table)).1
    ≡ refused (no_room "video-processing" (pos 4096))
unfolding runs
no_room_left = refl

-- A release under a name that is in no table, while `acquire` waits for the trainer, adds an
-- entry to the dictionary that the loop goes through.
stranger_breaks_loop : (acquire stranger_releases "llm" training).1 ≡ raised
unfolding runs
stranger_breaks_loop = refl

pub training-IsExclusive : (inspect : Inspect) → IsExclusive inspect training
unfolding holding
training-IsExclusive inspect m n hm hn = ground (
  arith,
  text_Eq.test_iff "llm" m,
  text_Eq.test_iff "llm" n,
  text_Eq.test_iff "video-processing" m,
  text_Eq.test_iff "video-processing" n,
  text_Eq.test_iff "lora-trainer" m,
  text_Eq.test_iff "lora-trainer" n,
)

acquire-IsExclusive_example : IsExclusive (λ c. none) (acquire trainer_yields "llm" training).0
acquire-IsExclusive_example =
    acquire-IsExclusive trainer_yields "llm" training (training-IsExclusive (λ c. none))

abbrev prompting : Scheduler
prompting = record training {
  reclaimers =
      ("llm", with_lease llm)
      ∷ (
        "lora-trainer",
        record { job = trainer; held = false; wanted = false; let_go = false; last_poll = 0 },
      )
      ∷ [];
  holder = some "llm";
}

prompting-IsExclusive : (inspect : Inspect) → IsExclusive inspect prompting
unfolding holding
prompting-IsExclusive inspect m n hm hn = ground (
  arith,
  text_Eq.test_iff "llm" m,
  text_Eq.test_iff "llm" n,
  text_Eq.test_iff "lora-trainer" m,
  text_Eq.test_iff "lora-trainer" n,
)

prompting-holds : holds (λ c. none) (with_lease llm) ≡ true
unfolding holds
prompting-holds = refl

lookup-prompting : lookup "llm" prompting.reclaimers ≡ some (with_lease llm)
unfolding lookup
lookup-prompting = refl

-- A benchmark under a name that nobody configured asks while the LLM is at work.
bench_ranks_below : lebℤ (job_for "bench" prompting).0.priority (pos 100) ≡ true
unfolding job_for
bench_ranks_below = refl

bench_is_another : ¬ ("llm" ≡ (job_for "bench" prompting).0.name)
unfolding job_for
bench_is_another e = cc ((text_Eq.test_iff "llm" "bench").1 e)

acquire-keeps_senior_example :
    (is_granted (acquire (calm (pos 9000)) "bench" prompting).1 ≡ false)
    × (lookup "llm" (acquire (calm (pos 9000)) "bench" prompting).0.reclaimers
        ≡ some (with_lease llm))
acquire-keeps_senior_example =
    acquire-keeps_senior (calm (pos 9000)) "bench" "llm" (with_lease llm) prompting
      (record { none_during_reclaim = λ n. refl; none_during_settle = refl })
      (prompting-IsExclusive (λ c. none)) lookup-prompting prompting-holds bench_ranks_below
      bench_is_another

-- The trainer last polled at 5, and 130 is too late with 120 allowed.
reap_clears_trainer : (reap 120 (λ c. none) 130 training).holder ≡ none
unfolding runs
reap_clears_trainer = refl

reap-training :
    lookup "lora-trainer" (reap 120 (λ c. none) 100 training).reclaimers ≡ some (with_lease trainer)
unfolding runs
reap-training = refl

reap-IsLive_example : IsLive 120 (λ c. none) 100 (with_lease trainer)
reap-IsLive_example =
    reap-IsLive 120 (λ c. none) 100 "lora-trainer" (with_lease trainer) training refl reap-training

reap-IsFirstHolding_example :
    IsFirstHolding
      (λ c. none)
      (reap 120 (λ c. none) 100 training)
      (reap 120 (λ c. none) 100 training).jobs
      (reap 120 (λ c. none) 100 training).holder
reap-IsFirstHolding_example = reap-IsFirstHolding 120 (λ c. none) 100 training

table-IsSorted : IsSorted table
unfolding comes_before
table-IsSorted = ((refl, (refl, tt)), ((refl, tt), (tt, tt)))

abbrev after_bench : Scheduler
after_bench = (acquire (calm (pos 9000)) "bench" (start table)).0

Reach-IsConsistent_example : IsConsistent after_bench
Reach-IsConsistent_example =
    Reach-IsConsistent 120 table after_bench table-IsSorted
      (next here (asks (calm (pos 9000)) "bench" (start table)))
