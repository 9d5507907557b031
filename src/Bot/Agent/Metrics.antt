-- ===== src/Bot/Agent/Metrics.antt =====
-- discord-bot/lore/metrics.py, the counters of AgentMetrics. Times, lists of names and
-- cached_tokens are left out.
use local_ai_server.Prelude.{Option, String, max, none, some, ℕ, ◌+◌, ◌/◌}

-- A usage report of the backend, with what it leaves out read as 0.
pub record Usage : Type 0 where
  pub prompt_tokens : ℕ
  pub completion_tokens : ℕ

pub record AgentMetrics : Type 0 where
  pub total_tool_calls : ℕ
  pub rounds_executed : ℕ
  pub error : Option String
  pub prompt_tokens : ℕ
  pub completion_tokens : ℕ
  pub peak_context_tokens : ℕ
  pub total_completion_tokens : ℕ

abbrev pub no_metrics : AgentMetrics
no_metrics = record {
  total_tool_calls = 0;
  rounds_executed = 0;
  error = none;
  prompt_tokens = 0;
  completion_tokens = 0;
  peak_context_tokens = 0;
  total_completion_tokens = 0;
}

abbrev pub usage_or : Option Usage → ℕ → ℕ → Usage
usage_or none prompt completion = record {
  prompt_tokens = prompt / 4;
  completion_tokens = completion / 4;
}
usage_or (some u) prompt completion = u

-- record_usage(usage, fallback_prompt_chars, fallback_completion_chars)
unfoldable pub record_usage : Option Usage → ℕ → ℕ → AgentMetrics → AgentMetrics
record_usage usage prompt completion m =
    let u = usage_or usage prompt completion in
    record m {
      prompt_tokens = u.prompt_tokens;
      completion_tokens = u.completion_tokens;
      total_completion_tokens = m.total_completion_tokens + u.completion_tokens;
      peak_context_tokens = max m.peak_context_tokens (u.prompt_tokens + u.completion_tokens);
    }

-- context_used
abbrev pub context_used : AgentMetrics → ℕ
context_used m = m.prompt_tokens + m.completion_tokens
