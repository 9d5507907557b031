-- ===== src/Trainer/Examples.antt =====
-- Runs of the trainer, and the theorems at them.
use local_ai_server.Prelude.{
  All, Bool, List, String, [], arith, contains, false, inl, inr, keep_if, list_Eq, number_Eq, refl,
  some, text_Eq, true, ◌+◌, ◌<◌, ◌∷◌, ◌≡◌, ◌≤◌,
}
use local_ai_server.Prelude.Int.{negsuc, pos}
use local_ai_server.Trainer.Checkpoints.{
  Checkpoint, Entry, all_checkpoints, finished, latest, prune, step_of,
}
use local_ai_server.Trainer.Newest.{latest_newest}
use local_ai_server.Trainer.Pruning.{InDir, kept_by, prune_keeps}
use local_ai_server.Trainer.Sparing.{count_in, prune_spares}
use local_ai_server.Trainer.Ranks.{complete_from}
use local_ai_server.Trainer.Supervisor.{
  Attempt, IsOrderly, asks, closes, ends, is_nonzero, kills, releases, run, run-IsOrderly,
  run-fails_by_worker, some_failure, spawns,
}

runs : Unit {0}
unfolding latest prune run
runs = tt

abbrev folder : String → Bool → Entry
folder name done = record { name = name; is_dir = true; is_complete = done }

-- Step 200 was cut off by a kill; 1000 is newer than 300 though its name comes first.
abbrev output_dir : List Entry
output_dir =
    folder "checkpoint-300" true
    ∷ folder "checkpoint-1000" true
    ∷ folder "checkpoint-200" false
    ∷ folder "checkpoint-100" true
    ∷ folder "final" true
    ∷ []

abbrev newest : Checkpoint
newest = record { step = 1000; entry = folder "checkpoint-1000" true }

output_dir-latest : latest output_dir ≡ some newest
unfolding runs
output_dir-latest = refl

output_dir-prune : prune 2 output_dir ≡ (
  "checkpoint-200" ∷ "checkpoint-100" ∷ [],
  folder "checkpoint-300" true ∷ folder "checkpoint-1000" true ∷ folder "final" true ∷ [],
)
unfolding runs contains
output_dir-prune = refl

latest_newest_example :
    (newest.entry.is_complete ≡ true)
    × All (λ c. c.step ≤ newest.step) (keep_if finished (all_checkpoints output_dir))
latest_newest_example = latest_newest output_dir newest output_dir-latest

in_kept : InDir (folder "checkpoint-300" true) (kept_by 2 output_dir)
unfolding runs contains
in_kept = inl refl

abbrev second : Entry
second = folder "checkpoint-300" true

second-step : step_of second.name ≡ some 300
unfolding step_of
second-step = refl

prune_keeps_example : (second.is_complete ≡ true) × (complete_from (300 + 1) output_dir < 2)
prune_keeps_example = prune_keeps 2 output_dir second 300 in_kept refl second-step

once_in_dir : count_in "checkpoint-300" output_dir ≤ 1
unfolding count_in
once_in_dir = omega arith

second-complete_from : complete_from 300 output_dir ≤ 2
unfolding complete_from
second-complete_from = omega arith

prune_spares_example : InDir second (kept_by 2 output_dir)
prune_spares_example =
    prune_spares 2 output_dir second (inl refl) once_in_dir
      (inr (refl, 300, second-step, second-complete_from))

-- Refused once, then preempted; in the second turn the worker fails by itself.
abbrev preempted_then_failed : List Attempt
preempted_then_failed =
    record { refusals = 1; granted = true; wanted = true; code = negsuc 8; stopping = false }
    ∷ record { refusals = 0; granted = true; wanted = false; code = negsuc 10; stopping = false }
    ∷ []

preempted_then_failed_code : (run false preempted_then_failed).exit_code ≡ some (pos 1)
unfolding runs
preempted_then_failed_code = refl

run-IsOrderly_example : IsOrderly false (run false preempted_then_failed).actions
run-IsOrderly_example = run-IsOrderly false preempted_then_failed

fails : is_nonzero (run false preempted_then_failed).exit_code ≡ true
unfolding runs
fails = refl

run-fails_by_worker_example : some_failure preempted_then_failed ≡ true
run-fails_by_worker_example = run-fails_by_worker preempted_then_failed fails

-- A shutdown after the first grant: the loop ends with 0 and gives the card back.
stopped_actions :
    (run false (
      record { refusals = 0; granted = true; wanted = true; code = negsuc 8; stopping = true }
      ∷ [])).actions
    ≡ asks ∷ spawns ∷ kills ∷ ends ∷ releases ∷ releases ∷ closes ∷ []
unfolding runs
stopped_actions = refl
