-- ===== src/Proxy/State.antt =====
-- proxy/state.py: which model is in the slot, who waits, and how many requests are in flight.
-- `lock` is the id of the request that holds the asyncio.Lock.
use local_ai_server.Prelude.{
  Bool, Option, String, ltb, none, number_Eq, some, text_Eq, true, ℕ, ◌+◌, ◌-◌,
}

pub record OrchestratorState : Type 0 where
  pub current_model : Option String
  pub queue_depth : ℕ
  pub llm_inflight : ℕ
  pub last_swap_at : Option ℕ
  pub last_request_at : Option ℕ
  pub lock : Option ℕ

abbrev pub initial : OrchestratorState
initial = record {
  current_model = none;
  queue_depth = 0;
  llm_inflight = 0;
  last_swap_at = none;
  last_request_at = none;
  lock = none;
}

unfoldable pub increment_queue : OrchestratorState → OrchestratorState
increment_queue s = record s { queue_depth = s.queue_depth + 1 }

-- max(0, depth - 1): subtraction on ℕ stops at 0 as the source's does here.
unfoldable pub decrement_queue : OrchestratorState → OrchestratorState
decrement_queue s = record s { queue_depth = s.queue_depth - 1 }

unfoldable pub llm_request_started : OrchestratorState → OrchestratorState
llm_request_started s = record s { llm_inflight = s.llm_inflight + 1 }

unfoldable pub llm_request_finished : OrchestratorState → OrchestratorState
llm_request_finished s = record s { llm_inflight = s.llm_inflight - 1 }

unfoldable pub record_swap : ℕ → String → OrchestratorState → OrchestratorState
record_swap now model s = record s { last_swap_at = some now; current_model = some model }

unfoldable pub record_request : ℕ → OrchestratorState → OrchestratorState
record_request now s = record s { last_request_at = some now }

-- `idle is None or idle < threshold`
unfoldable pub recently_used : ℕ → ℕ → OrchestratorState → Bool
recently_used now threshold s = elim s.last_request_at [
  | none ↦ true
  | some t ↦ ltb (now - t) threshold
]
