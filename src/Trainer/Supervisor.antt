-- ===== src/Trainer/Supervisor.antt =====
-- lora-training/supervisor.py: ask for the card, run a worker, give the card back. The worker,
-- the arbiter and the signals are the environment: an `Attempt` says what one turn of the loop
-- meets. `run` answers `none` while the loop has not ended.
use local_ai_server.Prelude.{
  Bool, Bool-cases, List, Option, [], arith, false, if◌then◌else◌, inl, inr, nat_eq, none, not,
  refl, some, suc, true, zero, ℕ, ◌&&◌, ◌||◌, ◌∷◌, ◌≡◌,
}
use local_ai_server.Prelude.Int.{negsuc, pos, ℤ}

pub record Attempt : Type 0 where
  -- how often the arbiter refuses before it grants the card or a shutdown ends the wait
  pub refusals : ℕ
  pub granted : Bool
  -- the arbiter wants the card back before the worker has ended by itself
  pub wanted : Bool
  -- what `child.wait()` returns: negative for a death by that signal
  pub code : ℤ
  -- a shutdown was requested by the time the worker has ended
  pub stopping : Bool

pub data Action : Type 0 where
  asks : Action
  spawns : Action
  kills : Action
  ends : Action
  releases : Action
  closes : Action

unfoldable pub refused_times : ℕ → List Action → List Action
refused_times zero rest = rest
refused_times (suc n) rest = asks ∷ refused_times n rest

-- wait_for_gpu: the calls of `acquire`, the last of them granted unless a shutdown came.
unfoldable pub wait_for_gpu : Attempt → List Action → List Action
unfolding refused_times
wait_for_gpu a rest = refused_times a.refusals (if a.granted then asks ∷ rest else rest)

-- run_worker: spawn, kill if the card is wanted, and wait for the end.
unfoldable pub run_worker : Attempt → List Action → List Action
run_worker a rest = spawns ∷ (if a.wanted then kills ∷ ends ∷ rest else ends ∷ rest)

pub data Verdict : Type 0 where
  again : Verdict
  exits : ℤ → Verdict

-- The tests on the exit code, in their order; KILLED_BY_US is -9.
unfoldable pub judge : ℤ → Bool → Verdict
judge (pos zero) stopping = exits (pos 0)
judge (pos (suc n)) stopping = if stopping then exits (pos 0) else exits (pos (suc n))
judge (negsuc n) stopping =
    if nat_eq n 8 then again else if stopping then exits (pos 0) else exits (pos 1)

-- The `finally` of `run`.
abbrev pub farewell : List Action
farewell = releases ∷ closes ∷ []

pub record Run : Type 0 where
  pub actions : List Action
  pub exit_code : Option ℤ

unfoldable pub prefixed : Attempt → Run → Run
unfolding wait_for_gpu run_worker
prefixed a r = record r { actions = wait_for_gpu a (run_worker a (releases ∷ r.actions)) }

abbrev pub returned : ℤ → Run
returned code = record { actions = farewell; exit_code = some code }

abbrev pub continue_with : Verdict → Run → Run
continue_with again rest = rest
continue_with (exits code) rest = returned code

-- run(), from a state in which a shutdown was requested or not.
unfoldable pub run : Bool → List Attempt → Run
unfolding prefixed judge
run true attempts = returned (pos 0)
run false [] = record { actions = []; exit_code = none }
run false (a ∷ rest) =
    let later = run a.stopping rest in
    if a.granted
    then prefixed a (continue_with (judge a.code a.stopping) later)
    else record { actions = wait_for_gpu a farewell; exit_code = some (pos 0) }

-- A worker is spawned only while none runs, killed only while one runs, and the card is given
-- back only while none runs.
abbrev pub IsOrderly : Bool → List Action → Type 0
IsOrderly running [] = Unit
IsOrderly running (asks ∷ rest) = (running ≡ false) × IsOrderly running rest
IsOrderly running (spawns ∷ rest) = (running ≡ false) × IsOrderly true rest
IsOrderly running (kills ∷ rest) = (running ≡ true) × IsOrderly running rest
IsOrderly running (ends ∷ rest) = (running ≡ true) × IsOrderly false rest
IsOrderly running (releases ∷ rest) = (running ≡ false) × IsOrderly running rest
IsOrderly running (closes ∷ rest) = (running ≡ false) × IsOrderly running rest

refused_times-IsOrderly :
    (n : ℕ) (rest : List Action) → IsOrderly false rest → IsOrderly false (refused_times n rest)
unfolding refused_times
refused_times-IsOrderly zero rest h = h
refused_times-IsOrderly (suc n) rest h = (refl, refused_times-IsOrderly n rest h)

if_asks-IsOrderly :
    (b : Bool) (rest : List Action)
    → IsOrderly false rest
    → IsOrderly false (if b then asks ∷ rest else rest)
if_asks-IsOrderly true rest h = (refl, h)
if_asks-IsOrderly false rest h = h

if_kills-IsOrderly :
    (b : Bool) (rest : List Action)
    → IsOrderly false rest
    → IsOrderly true (if b then kills ∷ ends ∷ rest else ends ∷ rest)
if_kills-IsOrderly true rest h = (refl, (refl, h))
if_kills-IsOrderly false rest h = (refl, h)

continue_with-IsOrderly :
    (v : Verdict) (later : Run)
    → IsOrderly false later.actions
    → IsOrderly false (continue_with v later).actions
continue_with-IsOrderly again later h = h
continue_with-IsOrderly (exits code) later h = (refl, (refl, tt))

-- However the workers end and whenever the card is wanted or a shutdown comes: at most one worker
-- runs at a time, only a running one is killed, and the supervisor asks for the card and gives it
-- back only while no worker runs.
pub run-IsOrderly :
    (stopping : Bool) (attempts : List Attempt) → IsOrderly false (run stopping attempts).actions
unfolding run
run-IsOrderly true attempts = (refl, (refl, tt))
run-IsOrderly false [] = tt
run-IsOrderly false (a ∷ rest) = elim (Bool-cases a.granted) [
  | inl g ↦ rw (g) (
      refused_times-IsOrderly a.refusals _ (
        refl,
        (
          refl,
          if_kills-IsOrderly a.wanted _ (
            refl,
            continue_with-IsOrderly (judge a.code a.stopping) (run a.stopping rest)
                (run-IsOrderly a.stopping rest),
          ),
        ),
      ))
  | inr g ↦ rw (g) (refused_times-IsOrderly a.refusals farewell (refl, (refl, tt)))
]

-- A failure that is reported: a worker that failed by itself, with no shutdown requested.
abbrev pub is_failure : Attempt → Bool
is_failure a =
    a.granted
    && not a.stopping
    && (elim a.code [ pos n ↦ not (nat_eq n 0) | negsuc n ↦ not (nat_eq n 8) ])

abbrev pub some_failure : List Attempt → Bool
some_failure [] = false
some_failure (a ∷ rest) = is_failure a || some_failure rest

abbrev pub is_nonzero : Option ℤ → Bool
is_nonzero none = false
is_nonzero (some (pos zero)) = false
is_nonzero (some (pos (suc n))) = true
is_nonzero (some (negsuc n)) = true

-- The container's exit code is not 0 only if some worker failed by itself, neither by SIGKILL
-- nor during a shutdown.
pub run-fails_by_worker :
    (attempts : List Attempt)
    → is_nonzero (run false attempts).exit_code ≡ true
    → some_failure attempts ≡ true
unfolding run
run-fails_by_worker [] h = h
run-fails_by_worker (a ∷ rest) h = elim (Bool-cases a.stopping) [
  | inl s ↦ ground arith
  | inr s ↦ ground (arith, run-fails_by_worker rest)
]
