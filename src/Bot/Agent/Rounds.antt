-- ===== src/Bot/Agent/Rounds.antt =====
-- discord-bot/lore/agent.py, `_run_tool_rounds`: its state, one tool call, one round and the loop.
-- The model, the tools and the summariser answer as a `World` says.
use local_ai_server.Prelude.{
  List, Option, String, [], if◌then◌else◌, is_empty, leb, length, ltb, none, not, number_Eq, some,
  suc, text_Eq, zero, ℕ, ◌*◌, ◌++◌, ◌+◌, ◌/◌, ◌∷◌,
}
use local_ai_server.Prelude.Dict.{insert, lookup}
use local_ai_server.Prelude.Words.{concat, is_blank, length_of, strip}
use local_ai_server.Bot.Session.{Sent, assistant}
use local_ai_server.Bot.Agent.Messages.{
  Args, Entry, Library, ToolCall, args_of, call, plain, result,
}
use local_ai_server.Bot.Agent.Research.{drop_seen_chunks, search_note_prefix, text_of}
use local_ai_server.Bot.Agent.Metrics.{Usage, context_used, no_metrics, record_usage}
use local_ai_server.Bot.Agent.Condensing.{Rounds, compact_tool_rounds}

pub record Reply : Type 0 where
  pub content : Option String
  pub tool_calls : List ToolCall
  pub reasoning : String
  pub usage : Option Usage

-- chat_with_tools: a reply, or a ProxyError
pub data Outcome : Type 0 where
  replied : Reply → Outcome
  failed : String → Outcome

-- What the n-th request, the n-th search and the n-th compaction meet.
pub record World : Type 0 where
  pub reply : ℕ → Outcome
  pub execute : ℕ → String → Args → String
  pub summary : ℕ → Option (String × Option Usage)

-- AGENT_MAX_REPEATED_SEARCHES, AGENT_CTX_COMPACT_PCT and AGENT_CTX_HARD_PCT in percent, and the
-- size of the context window.
pub record Limits : Type 0 where
  pub max_repeats : ℕ
  pub compact_percent : ℕ
  pub hard_percent : ℕ
  pub context : ℕ

-- An answer, the budget is used up, a ProxyError, or the StopIteration of a compaction.
pub data Finish : Type 0 where
  answered : String → Finish
  exhausted : Finish
  raised : String → Finish
  stuck : Finish

pub data Turned : Type 0 where
  stop : Finish → Rounds → Turned
  go : Rounds → Turned

unfoldable pub repeat_note : Library → ℕ → String
unfolding concat
repeat_note lib first = concat (
    search_note_prefix
    ∷ " You already ran this exact search in round "
    ∷ lib.decimal first
    ∷ ", and its results are above. Running it again returns the same thing. Change the wording, the tool or the scope (a channel or date range), or answer from what you have."
    ∷ [])

-- The result of a tool call: of a search that was not run before, its new excerpts, and of a
-- repeat, a note.
unfoldable pub call_tool : Library → World → ℕ → ToolCall → Rounds → String × Rounds
unfolding args_of repeat_note drop_seen_chunks lookup insert
call_tool lib w round tc s =
    let args = args_of lib tc in
    let signature = lib.dump tc.name args in
    elim (lookup signature s.ran) [
      | some first ↦ (repeat_note lib first, record s { repeats = s.repeats + 1 })
      | none ↦
          let raw = w.execute (length s.executed) tc.name args in
          let (text, shown) = drop_seen_chunks lib raw s.shown in
          (
            text,
            record s {
              ran = insert signature round s.ran;
              shown = shown;
              executed = s.executed ++ signature ∷ [];
            },
          )
    ]

-- The pair of messages of a call, at the end of both lists.
unfoldable pub append_pair : ToolCall → String → String → Rounds → Rounds
append_pair tc reasoning text s =
    let pair = (2 * s.next, call tc reasoning) ∷ (2 * s.next + 1, result tc.name text tc.id) ∷ [] in
    record s {
      messages = s.messages ++ pair;
      tool_messages = s.tool_messages ++ pair;
      next = s.next + 1;
      metrics = record s.metrics { total_tool_calls = s.metrics.total_tool_calls + 1 };
    }

-- The loop over the tool calls of a reply: the characters that they add, and the state. The
-- reasoning goes with the first call.
unfoldable pub run_calls : Library → World → ℕ → String → List ToolCall → Rounds → ℕ × Rounds
unfolding call_tool append_pair
run_calls lib w round reasoning [] s = (0, s)
run_calls lib w round reasoning (tc ∷ tcs) s =
    let (text, s') = call_tool lib w round tc s in
    let (chars, s'') = run_calls lib w round "" tcs (append_pair tc reasoning text s') in
    (length_of text + chars, s'')

-- The nudge after an empty reply.
unfoldable pub nudge : Rounds → Rounds
nudge s = record s {
  messages =
      s.messages
      ++ (
        2 * s.next,
        plain assistant "I didn't find enough information. Let me try a different search.",
      )
        ∷ [];
  next = s.next + 1;
}

abbrev pub after_condensing : Limits → ℕ → Option (ℕ × Rounds) → Rounds → Turned
after_condensing limits projected none s = stop stuck s
after_condensing limits projected (some (reclaimed, s')) s =
    if leb (limits.hard_percent * limits.context + 100 * reclaimed) (100 * projected)
    then stop exhausted s'
    else go s'

-- What follows the tool calls of a round: too many repeats, or too little room.
unfoldable pub close_round : Library → World → Limits → ℕ → Rounds → Turned
unfolding compact_tool_rounds
close_round lib w limits chars s =
    let projected = context_used s.metrics + chars / 3 in
    let s' = record s { compactions = s.compactions + 1 } in
    if leb limits.max_repeats s.repeats
    then stop exhausted s
    else if ltb (100 * projected) (limits.compact_percent * limits.context)
    then go s
    else after_condensing limits projected
        (compact_tool_rounds lib (w.summary s'.compactions) s'.compactions s') s'

unfoldable pub read_reply_of : Library → World → Limits → ℕ → Reply → Rounds → Turned
unfolding run_calls close_round nudge strip
read_reply_of lib w limits round reply s =
    let content = strip (text_of reply.content) in
    let done = run_calls lib w (round + 1) (strip reply.reasoning) reply.tool_calls s in
    if not (is_empty reply.tool_calls)
    then close_round lib w limits done.0 done.1
    else if is_blank content
    then go (nudge s)
    else stop (answered content) s

abbrev pub count_round : Rounds → Rounds
count_round s = record s {
  metrics = record s.metrics { rounds_executed = s.metrics.rounds_executed + 1 };
}

abbrev pub note_usage : Option Usage → Rounds → Rounds
note_usage usage s = record s { metrics = record_usage usage 0 0 s.metrics }

-- One round, the `round`-th from 0.
unfoldable pub one_round : Library → World → Limits → ℕ → Rounds → Turned
unfolding read_reply_of record_usage
one_round lib w limits round s = elim (w.reply round) [
  | failed error ↦ stop (raised error) (count_round s)
  | replied reply ↦ read_reply_of lib w limits round reply (note_usage reply.usage (count_round s))
]

-- The loop, with `left` rounds to go.
unfoldable pub rounds_from : Library → World → Limits → ℕ → ℕ → Rounds → Finish × Rounds
unfolding one_round
rounds_from lib w limits zero round s = (exhausted, s)
rounds_from lib w limits (suc left) round s = elim (one_round lib w limits round s) [
  | stop finish s' ↦ (finish, s')
  | go s' ↦ rounds_from lib w limits left (round + 1) s'
]

abbrev pub number_from : ℕ → List Sent → List Entry
number_from k [] = []
number_from k (m ∷ ms) = (2 * k, plain m.role m.content) ∷ number_from (k + 1) ms

-- The state at the start of the loop.
abbrev pub first_state : List Sent → List String → Rounds
first_state messages seen = record {
  messages = number_from 0 messages;
  tool_messages = [];
  shown = seen;
  ran = [];
  repeats = 0;
  compactions = 0;
  next = length messages;
  executed = [];
  metrics = no_metrics;
}

-- _run_tool_rounds(messages, …, max_rounds, seen_keys)
unfoldable pub run_tool_rounds :
    Library → World → Limits → ℕ → List Sent → List String → Finish × Rounds
unfolding rounds_from
run_tool_rounds lib w limits max_rounds messages seen =
    rounds_from lib w limits max_rounds 0 (first_state messages seen)
