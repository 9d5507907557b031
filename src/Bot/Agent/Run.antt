-- ===== src/Bot/Agent/Run.antt =====
-- discord-bot/lore/agent.py, `run_agent_loop`: the opening run of a question, and
-- streaming.py, `stream_answer`, whose answer to a request is given. The prompts' texts are given.
use local_ai_server.Prelude.{
  Bool, List, Option, String, [], false, if◌then◌else◌, max, min, none, number_Eq, some, text_Eq,
  true, ℕ, ◌+◌, ◌∷◌,
}
use local_ai_server.Prelude.Words.{concat, is_blank, length_of, strip}
use local_ai_server.Bot.Session.{Sent, system, user}
use local_ai_server.Bot.Agent.Messages.{AgentMessage, Library}
use local_ai_server.Bot.Agent.Research.{flatten_research}
use local_ai_server.Bot.Agent.Metrics.{AgentMetrics, Usage, record_usage}
use local_ai_server.Bot.Agent.Condensing.{Rounds, bodies}
use local_ai_server.Bot.Agent.Rounds.{
  Finish, Limits, World, answered, exhausted, raised, run_tool_rounds, stuck,
}

-- stream_answer: the joined text and the usage, or a ProxyError
pub data Streamed : Type 0 where
  streamed : String → Option Usage → Streamed
  cut : String → Streamed

pub record LoreRunResult : Type 0 where
  pub answer : String
  pub metrics : AgentMetrics
  pub tool_messages : List AgentMessage
  pub ok : Bool

-- build_system_prompt(channel_names) and build_synthesis_prompt()
pub record Prompts : Type 0 where
  pub system_text : String
  pub synthesis_text : String

-- A default and AGENT_MAX_ROUNDS_HARD_CAP
pub record Caps : Type 0 where
  pub default_rounds : ℕ
  pub hard_cap : ℕ

-- max(1, min(max_rounds, AGENT_MAX_ROUNDS_HARD_CAP))
unfoldable pub clamp_rounds : Caps → Option ℕ → ℕ
clamp_rounds caps none = max 1 (min caps.default_rounds caps.hard_cap)
clamp_rounds caps (some rounds) = max 1 (min rounds caps.hard_cap)

abbrev pub with_error : String → AgentMetrics → AgentMetrics
with_error e m = record m { error = some e }

abbrev pub opening_messages : Prompts → String → List Sent
opening_messages prompts q =
    record { role = system; content = prompts.system_text }
    ∷ record { role = user; content = q }
    ∷ []

abbrev pub synthesis_messages : Library → Prompts → List AgentMessage → String → List Sent
synthesis_messages lib prompts ms q =
    record { role = system; content = prompts.synthesis_text }
    ∷ record { role = user; content = flatten_research lib ms q }
    ∷ []

abbrev pub chars_of_sent : List Sent → ℕ
chars_of_sent [] = 0
chars_of_sent (m ∷ ms) = length_of m.content + chars_of_sent ms

abbrev pub or_default : String → String
or_default text =
    if is_blank text
    then "I've exhausted my search rounds. Please try rephrasing your question."
    else text

-- The answer from everything gathered.
unfoldable pub synthesise :
    Library → Prompts → (List Sent → Streamed) → String → Rounds → LoreRunResult
unfolding flatten_research record_usage strip concat
synthesise lib prompts stream q s =
    let research = bodies s.tool_messages in
    let messages = synthesis_messages lib prompts research q in
    elim (stream messages) [
      | cut e ↦ record {
        answer = concat ("⚠\u{fe0f} Failed to generate final answer: " ∷ e ∷ []);
        metrics = with_error e s.metrics;
        tool_messages = research;
        ok = false;
      }
      | streamed text usage ↦ record {
        answer = strip (or_default text);
        metrics = record_usage usage (chars_of_sent messages) (length_of text) s.metrics;
        tool_messages = research;
        ok = true;
      }
    ]

-- What follows the rounds; `none` is a RuntimeError that leaves the function.
unfoldable pub conclude_run :
    Library → Prompts → (List Sent → Streamed) → String → Finish → Rounds → Option LoreRunResult
unfolding synthesise concat
conclude_run lib prompts stream q stuck s = none
conclude_run lib prompts stream q exhausted s = some (synthesise lib prompts stream q s)
conclude_run lib prompts stream q (answered text) s =
    if is_blank text
    then some (synthesise lib prompts stream q s)
    else some (record {
      answer = text;
      metrics = s.metrics;
      tool_messages = bodies s.tool_messages;
      ok = true;
    })
conclude_run lib prompts stream q (raised e) s = some (record {
  answer = concat ("⚠\u{fe0f} Backend error: " ∷ e ∷ []);
  metrics = with_error e s.metrics;
  tool_messages = [];
  ok = false;
})

-- run_agent_loop(user_question, …, max_rounds)
unfoldable pub run_agent_loop :
    Library
    → World
    → Limits
    → Caps
    → Prompts
    → (List Sent → Streamed)
    → String
    → Option ℕ
    → Option LoreRunResult
unfolding clamp_rounds run_tool_rounds conclude_run
run_agent_loop lib w limits caps prompts stream q max_rounds =
    let (finish, s) =
      run_tool_rounds lib w limits (clamp_rounds caps max_rounds) (opening_messages prompts q) [] in
    conclude_run lib prompts stream q finish s
