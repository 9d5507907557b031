-- ===== src/Arbiter/Examples/Admission.antt =====
-- Runs of the arbiter that end in a grant, and the theorems at them.
use local_ai_server.Arbiter.Scheduler.Takeover.{IsReclaimed, acquire-takes_over}
use local_ai_server.Prelude.{
  [], false, list_Eq, none, number_Eq, refl, some, subst, sym, text_Eq, true, ◌∷◌, ◌≡◌, ◌≢◌,
}
use local_ai_server.Prelude.Dict.{adjust, insert, keys, lookup}
use local_ai_server.Prelude.Int.{lebℤ}
use local_ai_server.Arbiter.Reclaimers.{ask_for, forget, grant, holds, take_back}
use local_ai_server.Arbiter.Scheduler.State.{holding, job_for, release}
use local_ai_server.Arbiter.Scheduler.Acquire.{
  acquire, fits, granted, reclaim_as, reclaimed_from, scan, vram_settles,
}
use local_ai_server.Arbiter.Scheduler.Exclusive.{IsExclusive}
use local_ai_server.Arbiter.Examples.{
  trainer, trainer_yields, training, training-IsExclusive, with_lease,
}

runs : Unit {0}
unfolding acquire holding job_for lookup insert adjust keys reclaim_as scan release holds grant
    forget take_back ask_for fits
runs = tt

-- The LLM asks while the trainer, which lets go when it is asked to, holds the card.
trainer-IsReclaimed :
    IsReclaimed trainer_yields "lora-trainer" (with_lease trainer) (job_for "llm" training).1
unfolding runs
trainer-IsReclaimed = record { found = refl; in_use = refl; done = refl; no_new = refl }

job_for-training : (job_for "llm" training).1 ≡ training
unfolding runs
job_for-training = refl

one_holder : IsExclusive (λ c. none) (job_for "llm" training).1
one_holder =
    subst (IsExclusive (λ c. none)) (sym job_for-training) (training-IsExclusive (λ c. none))

llm_outranks : lebℤ (job_for "llm" training).0.priority (with_lease trainer).job.priority ≡ false
unfolding runs
llm_outranks = refl

trainer_is_another : "lora-trainer" ≢ (job_for "llm" training).0.name
unfolding runs
trainer_is_another e = cc ((text_Eq.test_iff "lora-trainer" "llm").1 e)

llm_room : fits (job_for "llm" training).0 trainer_yields.free_mb ≡ true
unfolding runs
llm_room = refl

readings_settle : vram_settles trainer_yields.first_reading trainer_yields.readings ≡ true
unfolding vram_settles
readings_settle = refl

acquire-takes_over_example :
    ((acquire trainer_yields "llm" training).1 ≡ granted (reclaimed_from ("lora-trainer" ∷ [])))
    × ((acquire trainer_yields "llm" training).0.holder ≡ some (job_for "llm" training).0.name)
acquire-takes_over_example =
    acquire-takes_over trainer_yields "llm" "lora-trainer" (with_lease trainer) training
      trainer-IsReclaimed one_holder llm_outranks trainer_is_another readings_settle llm_room
