-- ===== src/Arbiter/Reclaimers.antt =====
-- arbiter/reclaimers.py: a job's lease, and how the card is taken back, one way for each kind.
-- The three classes are one record: `wanted`, `let_go` and `last_poll` are the fields that a
-- CooperativeReclaimer adds. Docker's answers and the clock are arguments.
use local_ai_server.Prelude.{
  Bool, List, Option, String, [], false, if◌then◌else◌, ltb, none, not, some, true, ℕ, ◌&&◌, ◌+◌,
  ◌||◌, ◌∷◌,
}
use local_ai_server.Prelude.Int.{lebℤ, pos, ℤ}
use local_ai_server.Arbiter.Config.{JobConfig, Kind, container, cooperative, or_default, unmanaged}

pub record Reclaimer : Type 0 where
  pub job : JobConfig
  pub held : Bool
  pub wanted : Bool
  pub let_go : Bool
  pub last_poll : ℕ

-- build(job, docker_client): the class follows from `job.kind`.
unfoldable pub build : JobConfig → Reclaimer
build job = record { job = job; held = false; wanted = false; let_go = false; last_poll = 0 }

-- What Docker says of a container: the key `Running` of its state may be missing.
pub record ContainerState : Type 0 where
  pub running : Option Bool

-- ContainerReclaimer._up
abbrev pub is_up : Option ContainerState → Bool
is_up none = false
is_up (some state) = or_default state.running false

-- Docker, as one caller sees it: a container's state, `none` if there is no such container.
abbrev pub Inspect : Type 0
Inspect = String → Option ContainerState

abbrev pub holds_as : Kind → Bool → Bool → Bool
holds_as unmanaged held up = held
holds_as container held up = held && up
holds_as cooperative held up = held

unfoldable pub holds : Inspect → Reclaimer → Bool
holds inspect r = holds_as r.job.kind r.held (is_up (inspect r.job.container))

abbrev pub grant_as : Kind → ℕ → Reclaimer → Reclaimer
grant_as unmanaged now r = record r { held = true }
grant_as container now r = record r { held = true }
grant_as cooperative now r = record r {
  held = true;
  wanted = false;
  let_go = false;
  last_poll = now;
}

unfoldable pub grant : ℕ → Reclaimer → Reclaimer
grant now r = grant_as r.job.kind now r

abbrev pub forget_as : Kind → Reclaimer → Reclaimer
forget_as unmanaged r = record r { held = false }
forget_as container r = record r { held = false }
forget_as cooperative r = record r { held = false; wanted = false; let_go = true }

unfoldable pub forget : Reclaimer → Reclaimer
forget r = forget_as r.job.kind r

-- `self._held = False`, the end of every successful reclaim.
unfoldable pub take_back : Reclaimer → Reclaimer
take_back r = record r { held = false }

-- `self._wanted.set()`
unfoldable pub ask_for : Reclaimer → Reclaimer
ask_for r = record r { wanted = true }

pub data Signal : Type 0 where
  sigterm : Signal
  sigkill : Signal

pub data KillOutcome : Type 0 where
  exited : KillOutcome
  timed_out : KillOutcome
  failed : KillOutcome

-- What a kill meets: whether Docker refuses a signal, the readings of `_up` until the grace
-- period ends, those after SIGKILL until the arbiter gives up, and the last one after that.
pub record KillRun : Type 0 where
  pub refuses : Signal → Bool
  pub grace : List Bool
  pub after_kill : List Bool
  pub still_up : Bool

-- `while await self._up()` with the readings that it gets: does one say that it is gone?
unfoldable pub gone : List Bool → Bool
gone [] = false
gone (up ∷ rest) = not up || gone rest

unfoldable pub kill_hard : KillRun → KillOutcome
unfolding gone
kill_hard k = if k.refuses sigkill then failed else if gone k.after_kill then exited else timed_out

-- _kill_and_wait: the signals that are sent, in order, and how it ends.
unfoldable pub kill_and_wait : ℤ → KillRun → List Signal × KillOutcome
unfolding kill_hard gone
kill_and_wait stop_timeout k =
    if lebℤ stop_timeout (pos 0)
    then (sigkill ∷ [], kill_hard k)
    else if k.refuses sigterm
    then (sigterm ∷ [], failed)
    else if gone k.grace
    then (sigterm ∷ [], exited)
    else (sigterm ∷ sigkill ∷ [], kill_hard k)

abbrev pub is_exited : KillOutcome → Bool
is_exited exited = true
is_exited timed_out = false
is_exited failed = false

-- ContainerReclaimer.reclaim: the answer, and the reclaimer after it.
unfoldable pub reclaim_container : KillRun → Reclaimer → Bool × Reclaimer
unfolding kill_and_wait take_back
reclaim_container k r =
    if is_exited (kill_and_wait r.job.stop_timeout k).1 && not k.still_up
    then (true, take_back r)
    else (false, r)

-- wait_until_wanted: it answers true if the flag is set when the call comes or gets set before
-- the timeout, and it marks the poll at its start and at its end.
unfoldable pub wait_until_wanted : ℕ → ℕ → Bool → Reclaimer → Bool × Reclaimer
wait_until_wanted started ended woken r =
    if r.wanted
    then (true, record r { last_poll = started })
    else (woken, record r { last_poll = ended })

-- seconds_since_poll() > COOPERATIVE_STALE_AFTER
unfoldable pub is_stale : ℕ → ℕ → Reclaimer → Bool
is_stale stale_after now r = ltb (r.last_poll + stale_after) now
