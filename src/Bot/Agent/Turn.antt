-- ===== src/Bot/Agent/Turn.antt =====
-- discord-bot/lore/agent.py, `run_lore_turn` and `seed_session_from_run`: the turns of a thread.
use local_ai_server.Prelude.{
  Bool, List, Option, String, [], if◌then◌else◌, is_empty, leb, not, number_Eq, some, text_Eq, ℕ,
  ◌*◌, ◌-◌, ◌==◌, ◌∷◌,
}
use local_ai_server.Prelude.Words.{concat, is_blank, join, strip}
use local_ai_server.Bot.Session.{
  LoreSession, Sent, append_answer, append_question, append_research, build_messages,
  estimated_tokens, record_context, user,
}
use local_ai_server.Bot.Agent.Messages.{AgentMessage, Library}
use local_ai_server.Bot.Agent.Research.{Block, render_research_blocks, texts_of_blocks}
use local_ai_server.Bot.Agent.Metrics.{AgentMetrics, context_used, record_usage}
use local_ai_server.Bot.Agent.Condensing.{Rounds, bodies}
use local_ai_server.Bot.Agent.Rounds.{
  Finish, Limits, World, answered, exhausted, first_state, raised, run_tool_rounds, stuck,
}
use local_ai_server.Bot.Agent.Run.{Caps, LoreRunResult, Streamed, clamp_rounds, cut, streamed}

-- AGENT_CTX_SOFT_PCT in percent, and the numbers' texts of an f-string: with grouped digits, and
-- the share in percent of the second number that the first one is.
pub record Budget : Type 0 where
  pub soft_percent : ℕ
  pub grouped : ℕ → String
  pub share : ℕ → ℕ → String

-- The times at which the question and the answer are added, and the n-th streamed answer.
pub record Meeting : Type 0 where
  pub asked_at : ℕ
  pub answered_at : ℕ
  pub stream : ℕ → List Sent → Streamed

-- An answer, with the metrics and whether a tool was run; a ProxyError; or a RuntimeError.
pub data TurnOutcome : Type 0 where
  done : String → AgentMetrics → Bool → TurnOutcome
  aborted : String → TurnOutcome
  crashed : TurnOutcome

-- pct_of(limit) >= percent
unfoldable pub reaches : ℕ → ℕ → LoreSession → Bool
reaches percent limit s =
    if limit == 0 then percent == 0 else leb (percent * limit) (100 * s.last_context_tokens)

-- _budget_notice
unfoldable pub budget_notice : Budget → ℕ → ℕ → Sent
unfolding concat
budget_notice budget used limit = record {
  role = user;
  content = concat (
      "CONTEXT BUDGET: this thread has used "
      ∷ budget.grouped used
      ∷ " of "
      ∷ budget.grouped limit
      ∷ " tokens ("
      ∷ budget.share used limit
      ∷ "%); about "
      ∷ budget.grouped (limit - used)
      ∷ " remain. Prefer answering from the material already gathered. Search again only if the question truly cannot be answered without it, and keep any new search narrow."
      ∷ []);
}

-- _ANSWER_NUDGE
abbrev pub answer_nudge : Sent
answer_nudge = record {
  role = user;
  content =
      "Now write the answer to the most recent question, using the material above. Do NOT call any tool, and do NOT output any tool calls, function names, or XML tags — searching is finished for this turn. Reply with the answer itself, as prose.";
}

abbrev pub extra_of : Budget → Limits → LoreSession → List Sent
extra_of budget limits s =
    if reaches budget.soft_percent limits.context s
    then budget_notice budget s.last_context_tokens limits.context ∷ []
    else []

-- The tool rounds, which a thread above the hard limit goes without.
unfoldable pub search_rounds :
    Library → World → Limits → Caps → Budget → Option ℕ → LoreSession → Finish × Rounds
unfolding reaches budget_notice build_messages clamp_rounds run_tool_rounds
search_rounds lib w limits caps budget max_rounds s =
    let messages = build_messages (extra_of budget limits s) s in
    if reaches limits.hard_percent limits.context s
    then (exhausted, first_state [] [])
    else run_tool_rounds lib w limits (clamp_rounds caps max_rounds) messages s.seen_keys

abbrev pub add_blocks : Library → List Block → LoreSession → LoreSession
add_blocks lib blocks s =
    if is_empty blocks then s else append_research (join "\n\n" (texts_of_blocks lib blocks)) s

-- The results of the rounds as one research block, numbered from `start`; nothing if an earlier
-- turn showed everything.
unfoldable pub add_research : Library → List AgentMessage → ℕ → LoreSession → LoreSession
unfolding render_research_blocks append_research join
add_research lib ms start s =
    let r = render_research_blocks lib ms s.seen_keys start in
    add_blocks lib r.blocks (record s { seen_keys = r.keys })

abbrev pub researched : Library → List AgentMessage → LoreSession → LoreSession
researched lib ms s = if is_empty ms then s else add_research lib ms s.searches s

abbrev pub stripped : Streamed → Streamed
stripped (cut e) = cut e
stripped (streamed text usage) = streamed (strip text) usage

abbrev pub or_retry : Streamed → Streamed → Streamed
or_retry (cut e) second = cut e
or_retry (streamed text usage) second =
    if is_blank (strip text) then stripped second else streamed (strip text) usage

abbrev pub or_apology : String → String
or_apology text =
    if is_blank text then "I wasn't able to produce an answer for that. Try rephrasing?" else text

-- The end of a turn that has an answer.
unfoldable pub close_turn :
    Meeting → String → AgentMetrics → Bool → LoreSession → TurnOutcome × LoreSession
unfolding append_answer record_context
close_turn meeting text metrics searched s =
    let said = or_apology text in
    (
      done said metrics searched,
      record_context (context_used metrics) (append_answer meeting.answered_at said s),
    )

-- The streamed answer, which is tried again without tools when it is empty.
unfoldable pub write_answer :
    Meeting → AgentMetrics → Bool → LoreSession → TurnOutcome × LoreSession
unfolding build_messages strip record_usage close_turn
write_answer meeting metrics searched s =
    let messages = build_messages (answer_nudge ∷ []) s in
    elim (or_retry (meeting.stream 0 messages) (meeting.stream 1 messages)) [
      | cut e ↦ (aborted e, s)
      | streamed text usage ↦ close_turn meeting text (record_usage usage 0 0 metrics) searched s
    ]

-- What follows the rounds; their errors leave the turn.
unfoldable pub conclude_turn :
    Library → Meeting → Finish → Rounds → LoreSession → TurnOutcome × LoreSession
unfolding add_research write_answer close_turn
conclude_turn lib meeting finish rounds s =
    let tools = bodies rounds.tool_messages in
    let searched = not (is_empty tools) in
    let s' = researched lib tools s in
    elim finish [
      | raised e ↦ (aborted e, s)
      | stuck ↦ (crashed, s)
      | exhausted ↦ write_answer meeting rounds.metrics searched s'
      | answered text ↦
          if is_blank text
          then write_answer meeting rounds.metrics searched s'
          else close_turn meeting text rounds.metrics searched s'
    ]

-- run_lore_turn(session, question, …, max_rounds)
unfoldable pub run_lore_turn :
    Library
    → World
    → Limits
    → Caps
    → Budget
    → Meeting
    → Option ℕ
    → String
    → LoreSession
    → TurnOutcome × LoreSession
unfolding append_question search_rounds conclude_turn
run_lore_turn lib w limits caps budget meeting max_rounds q s =
    let s' = append_question meeting.asked_at q s in
    let (finish, rounds) = search_rounds lib w limits caps budget max_rounds s' in
    conclude_turn lib meeting finish rounds s'

-- LoreSession(thread_id, system_prompt, original_question, pinned_now)
abbrev pub empty_session : ℕ → ℕ → String → String → String → LoreSession
empty_session now thread_id system_prompt q pinned_now = record {
  thread_id = thread_id;
  system_prompt = system_prompt;
  original_question = q;
  pinned_now = pinned_now;
  offer_message_id = 0;
  created_at = some now;
  last_active_at = some now;
  transcript = [];
  seen_keys = [];
  turns = 0;
  searches = 0;
  compactions = 0;
  last_context_tokens = 0;
  peak_context_tokens = 0;
}

-- seed_session_from_run(thread_id, …, question, run, pinned_now), with the system prompt
unfoldable pub seed_session_from_run :
    Library → ℕ → ℕ → String → String → String → LoreRunResult → LoreSession
unfolding append_question add_research append_answer estimated_tokens record_context
seed_session_from_run lib now thread_id system_prompt pinned_now q run =
    let asked = append_question now q (empty_session now thread_id system_prompt q pinned_now) in
    let told = append_answer now run.answer (add_research lib run.tool_messages 0 asked) in
    record_context (estimated_tokens told) told
