-- ===== src/Bot/Agent/Messages.antt =====
-- discord-bot/lore/agent.py and research.py: the messages of a tool-calling conversation, and
-- what the loop uses of Python's libraries.
use local_ai_server.Prelude.{Option, String, [], none, number_Eq, some, text_Eq, ℕ}
use local_ai_server.Prelude.Dict.{Dict}
use local_ai_server.Bot.Session.{Role}

-- A tool call as the model sends it; the arguments are JSON text.
pub record ToolCall : Type 0 where
  pub id : String
  pub name : String
  pub arguments : String

abbrev pub Args : Type 0
Args = Dict String String

-- json.loads on arguments, none where it raises; json.dumps of a name and arguments with sorted
-- keys; the hex digest that chunk_key takes; and str on numbers.
pub record Library : Type 0 where
  pub parse_args : String → Option Args
  pub dump : String → Args → String
  pub digest : String → String
  pub decimal : ℕ → String

-- A message without tools, a summary tagged CONDENSED_KIND, an assistant message with one tool
-- call and the reasoning on it ("" for none), and a tool's result with its name, content and
-- tool_call_id.
pub data AgentMessage : Type 0 where
  plain : Role → String → AgentMessage
  condensed : String → AgentMessage
  call : ToolCall → String → AgentMessage
  result : String → String → String → AgentMessage

-- A message object: its identity, which both lists of the loop share, and what it holds.
abbrev pub Entry : Type 0
Entry = ℕ × AgentMessage

-- `json.loads(raw_args)`, and no arguments where that fails
unfoldable pub args_of : Library → ToolCall → Args
args_of lib tc = elim (lib.parse_args tc.arguments) [ none ↦ [] | some args ↦ args ]
