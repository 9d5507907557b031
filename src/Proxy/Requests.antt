-- ===== src/Proxy/Requests.antt =====
-- proxy/main.py, `proxy` and `_forward`: the life of the requests for the swappable slot.
-- Each request runs from one `await` to the next without a switch, so an event is what a request
-- does between two of them. `releases` counts the tasks `arbiter.release()` that were started.
use local_ai_server.Prelude.{
  Bool, List, Option, String, [], false, if◌then◌else◌, none, number_Eq, some, text_Eq, true, ℕ,
  ◌&&◌, ◌+◌, ◌==◌, ◌||◌, ◌∷◌,
}
use local_ai_server.Prelude.Dict.{Dict, insert, lookup}
use local_ai_server.Proxy.Client.{Answer, Reply, denied, granted, raises, read_reply}
use local_ai_server.Proxy.State.{
  OrchestratorState, decrement_queue, increment_queue, initial, llm_request_finished,
  llm_request_started, record_request, record_swap,
}

-- Where a request stands: it waits for the arbiter, for the lock, it streams, or it is over.
pub data Phase : Type 0 where
  asking : Phase
  queued : Phase
  streaming : Phase
  over : Phase

pub record Pending : Type 0 where
  pub model : String
  pub phase : Phase
  -- the variable `released` of the closure `_finish`
  pub released : Bool

pub record Proxy : Type 0 where
  pub state : OrchestratorState
  pub requests : Dict ℕ Pending
  pub releases : ℕ

abbrev pub empty : Proxy
empty = record { state = initial; requests = []; releases = 0 }

unfoldable pub with_state : (OrchestratorState → OrchestratorState) → Proxy → Proxy
with_state f p = record p { state = f p.state }

unfoldable pub set_request : ℕ → Pending → Proxy → Proxy
set_request id r p = record p { requests = insert id r p.requests }

-- `if state.llm_inflight == 0 and state.queue_depth == 0: create_task(arbiter.release())`
unfoldable pub announce_idle : Proxy → Proxy
announce_idle p =
    if p.state.llm_inflight == 0 && p.state.queue_depth == 0
    then record p { releases = p.releases + 1 }
    else p

-- _finish, for a request that is then over.
unfoldable pub finish : ℕ → Pending → Proxy → Proxy
unfolding with_state set_request announce_idle llm_request_finished
finish id r p =
    if r.released
    then p
    else announce_idle (
        with_state llm_request_finished
          (set_request id (record r { phase = over; released = true }) p))

-- The head of the swappable path.
unfoldable pub arrive : ℕ → ℕ → String → Proxy → Proxy
unfolding with_state set_request increment_queue record_request llm_request_started
arrive id now model p =
    with_state (λ s. llm_request_started (record_request now (increment_queue s)))
      (set_request id (record { model = model; phase = asking; released = false }) p)

-- What follows `await arbiter.acquire()`.
unfoldable pub after_acquire : ℕ → Pending → Answer → Proxy → Proxy
unfolding with_state set_request decrement_queue finish
after_acquire id r (granted detail) p = set_request id (record r { phase = queued }) p
after_acquire id r (denied detail) p = finish id r (with_state decrement_queue p)
after_acquire id r raises p = finish id r p

-- `await state.lock.acquire()` ends by a cancellation.
unfoldable pub cancel_wait : ℕ → Pending → Proxy → Proxy
unfolding with_state decrement_queue finish
cancel_wait id r p = finish id r (with_state decrement_queue p)

abbrev pub is_current : Option String → String → Bool
is_current none model = false
is_current (some m) model = m == model

-- `if model: if state.current_model != model: state.record_swap(model)`
unfoldable pub note_model : ℕ → String → OrchestratorState → OrchestratorState
unfolding record_swap
note_model now model s =
    if model == "" || is_current s.current_model model then s else record_swap now model s

-- The lock is ours: leave the queue, and note a model switch.
unfoldable pub enter : ℕ → ℕ → Pending → Proxy → Proxy
unfolding with_state set_request decrement_queue note_model
enter id now r p =
    with_state (λ s. note_model now r.model (decrement_queue (record s { lock = some id })))
      (set_request id (record r { phase = streaming }) p)

-- The end of `_forward`, by the stream's `finally` or, when the backend fails, by its `except`,
-- after which `proxy` calls `_finish` once more.
unfoldable pub leave : ℕ → Pending → Bool → Proxy → Proxy
unfolding with_state finish
leave id r failed p =
    let unlocked = with_state (λ s. record s { lock = none }) p in
    let ended = finish id r unlocked in
    if failed then finish id (record r { phase = over; released = true }) ended else ended

pub data Event : Type 0 where
  arrives : ℕ → ℕ → String → Event
  answered : ℕ → Reply → Event
  cancelled : ℕ → Event
  locked : ℕ → ℕ → Event
  ended : ℕ → Bool → Event

-- One event of a request in a given phase. An event that does not fit its phase cannot occur,
-- and changes nothing.
unfoldable pub react : Event → Pending → Phase → Proxy → Proxy
unfolding after_acquire cancel_wait enter leave read_reply
react (answered id answer) r asking p = after_acquire id r (read_reply answer) p
react (cancelled id) r asking p = after_acquire id r raises p
react (cancelled id) r queued p = cancel_wait id r p
react (locked id now) r queued p = elim p.state.lock [ none ↦ enter id now r p | some other ↦ p ]
react (ended id failed) r streaming p = leave id r failed p
react _ r _ p = p

abbrev pub subject : Event → ℕ
subject (arrives id now model) = id
subject (answered id answer) = id
subject (cancelled id) = id
subject (locked id now) = id
subject (ended id failed) = id

abbrev pub on_new : Event → Proxy → Proxy
on_new (arrives id now model) p = arrive id now model p
on_new (answered id answer) p = p
on_new (cancelled id) p = p
on_new (locked id now) p = p
on_new (ended id failed) p = p

-- One event. Ids are fresh: an arrival under an id that is known changes nothing.
unfoldable pub step : Event → Proxy → Proxy
unfolding react arrive lookup
step e p = elim (lookup (subject e) p.requests) [ none ↦ on_new e p | some r ↦ react e r r.phase p ]

unfoldable pub run : List Event → Proxy → Proxy
unfolding step
run [] p = p
run (e ∷ es) p = run es (step e p)
