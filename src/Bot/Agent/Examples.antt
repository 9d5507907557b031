-- ===== src/Bot/Agent/Examples.antt =====
-- A run of the agent with a repeated search and a compaction, a thread's turns, and the theorems
-- at them.
use local_ai_server.Prelude.{
  Bool, List, String, [], contains, length, list_Eq, min, none, number_Eq, occurrences, refl, some,
  suc, text_Eq, true, zero, ℕ, ◌+◌, ◌||◌, ◌∷◌, ◌≡◌, ◌≤◌,
}
use local_ai_server.Prelude.Words.{concat}
use local_ai_server.Bot.Session.{LoreSession, Sent, answer, append_research, assistant, user}
use local_ai_server.Bot.Agent.Messages.{AgentMessage, Library, ToolCall, call, condensed, result}
use local_ai_server.Bot.Agent.Research.{arg, render_research_blocks, search}
use local_ai_server.Bot.Agent.Metrics.{no_metrics}
use local_ai_server.Bot.Agent.Condensing.{Rounds, bodies}
use local_ai_server.Bot.Agent.Rounds.{
  Finish, Limits, Outcome, World, answered, exhausted, repeat_note, replied, run_tool_rounds,
}
use local_ai_server.Bot.Agent.Once.{run_tool_rounds-once}
use local_ai_server.Bot.Agent.Stops.{IsFinal, run_tool_rounds-stops}
use local_ai_server.Bot.Agent.Ends.{IsSound, run_tool_rounds-IsSound}
use local_ai_server.Bot.Agent.Run.{Caps, LoreRunResult, Prompts, Streamed, run_agent_loop, streamed}
use local_ai_server.Bot.Agent.Turn.{
  Budget, Meeting, TurnOutcome, run_lore_turn, seed_session_from_run,
}
use local_ai_server.Bot.Agent.Upkeep.{maybe_compact_session}
use local_ai_server.Bot.Agent.Growth.{IsTurn, answer_turns, run_lore_turn-IsTurn}
use local_ai_server.Bot.Agent.Blocks.{research_texts}
use local_ai_server.Bot.Agent.Shown.{due, found_keys, render_research_blocks-due, shown_keys}
use local_ai_server.Bot.Agent.Opening.{IsRun, run_agent_loop-IsRun}

-- A search for its argument as the query; equal texts have equal keys.
abbrev library : Library
library = record {
  parse_args = λ s. some (("query", s) ∷ []);
  dump = λ name args. concat (name ∷ ":" ∷ arg "query" args ∷ []);
  digest = λ s. s;
  decimal = λ n. "1";
}

abbrev searching : String → String → ToolCall
searching id query = record { id = id; name = "search"; arguments = query }

abbrev asks_for : List ToolCall → Outcome
asks_for tcs = replied (record {
  content = none;
  tool_calls = tcs;
  reasoning = "let me look";
  usage = some (record { prompt_tokens = 100; completion_tokens = 10 });
})

abbrev says : String → Outcome
says text = replied (record {
  content = some text;
  tool_calls = [];
  reasoning = "";
  usage = some (record { prompt_tokens = 200; completion_tokens = 20 });
})

abbrev replies : ℕ → Outcome
replies zero = asks_for (searching "a" "tower" ∷ searching "b" "tower" ∷ [])
replies (suc zero) = says " "
replies (suc (suc zero)) = asks_for (searching "c" "moat" ∷ [])
replies (suc (suc (suc n))) = says " ann built it "

abbrev finds : ℕ → String
finds zero = "excerpt one\n\n---\n\nexcerpt two"
finds (suc n) = "excerpt two\n\n---\n\nexcerpt three"

abbrev world : World
world = record {
  reply = replies;
  execute = λ n name args. finds n;
  summary = λ n. some ("a tower", none);
}

-- Compaction starts at 150 of 1000 tokens.
abbrev limits : Limits
limits = record { max_repeats = 2; compact_percent = 15; hard_percent = 85; context = 1000 }

abbrev opening : List Sent
opening = record { role = user; content = "who built the tower?" } ∷ []

abbrev ran : ℕ → Finish × Rounds
ran max_rounds = run_tool_rounds library world limits max_rounds opening []

-- The second search was not run again, the blank reply did not end the run.
ran_searches : (ran 5).1.executed ≡ "search:tower" ∷ "search:moat" ∷ []
unfolding run_tool_rounds
ran_searches = refl

ran_answer : (ran 5).0 ≡ answered "ann built it"
unfolding run_tool_rounds
ran_answer = refl

ran_short : (ran 3).0 ≡ exhausted
unfolding run_tool_rounds
ran_short = refl

-- After the first round the first result was condensed, so that its second excerpt is shown when
-- it is found again.
ran_condensed :
    bodies (ran 5).1.tool_messages
    ≡ condensed
        "[Condensed research 1] earlier searches from this run, summarised to save context\na tower"
      ∷ call (searching "b" "tower") ""
      ∷ result "search" (repeat_note library 1) "b"
      ∷ call (searching "c" "moat") "let me look"
      ∷ result "search" (finds 1) "c"
      ∷ []
unfolding run_tool_rounds repeat_note
ran_condensed = refl

run_tool_rounds-once_example :
    ((search : String) → occurrences search (ran 5).1.executed ≤ 1)
    × ((ran 5).1.metrics.total_tool_calls ≡ length (ran 5).1.executed + (ran 5).1.repeats)
run_tool_rounds-once_example = run_tool_rounds-once library world limits 5 opening []

prose : IsFinal (world.reply 3)
unfolding local_ai_server.Prelude.Words.strip
prose = (refl, refl)

run_tool_rounds-stops_example : (ran 5).1.metrics.rounds_executed ≤ min 5 4
run_tool_rounds-stops_example = run_tool_rounds-stops library world limits 5 opening [] 3 prose

run_tool_rounds-IsSound_example : IsSound world (ran 5)
run_tool_rounds-IsSound_example = run_tool_rounds-IsSound library world limits 5 opening []

-- The excerpts of a conversation: "excerpt two" was found twice, "excerpt three" shown before.
abbrev found_twice : List AgentMessage
found_twice =
    call (searching "a" "tower") ""
    ∷ result "search" (finds 0) "a"
    ∷ call (searching "c" "moat") ""
    ∷ result "search" (finds 1) "c"
    ∷ []

found_blocks :
    (render_research_blocks library found_twice ("excerpt three" ∷ []) 0).blocks
    ≡ search 1 "\"tower\"" ("excerpt one" ∷ "excerpt two" ∷ []) ∷ []
unfolding render_research_blocks
found_blocks = refl

abbrev caps : Caps
caps = record { default_rounds = 10; hard_cap = 25 }

abbrev prompts : Prompts
prompts = record { system_text = "Search."; synthesis_text = "Write." }

abbrev writes : List Sent → Streamed
writes ms = streamed " ann did " none

run_agent_loop-IsRun_example :
    (r : LoreRunResult) × (run_agent_loop library world limits caps prompts writes "who?" (some 2)
      ≡ some r)
    × IsRun world writes 25 r
run_agent_loop-IsRun_example =
    run_agent_loop-IsRun library world limits caps prompts writes "who?" (some 2)

-- An opening run that was answered at once, its thread, and a turn whose rounds are used up and
-- whose first stream is empty.
abbrev opening_run : LoreRunResult
opening_run = record {
  answer = "ann did";
  metrics = no_metrics;
  tool_messages = found_twice;
  ok = true;
}

abbrev thread : LoreSession
thread = seed_session_from_run library 10 7 "Talk." "noon" "who?" opening_run

abbrev budget : Budget
budget = record { soft_percent = 70; grouped = λ n. "1"; share = λ n m. "1" }

abbrev stream_of : ℕ → Streamed
stream_of zero = streamed " " none
stream_of (suc n) = streamed " bob dug it" none

abbrev meeting : Meeting
meeting = record { asked_at = 20; answered_at = 30; stream = λ n ms. stream_of n }

abbrev next_turn : TurnOutcome × LoreSession
next_turn = run_lore_turn library world limits caps budget meeting (some 3) "who dug?" thread

next_answer :
    answer_turns next_turn.0
    ≡ record { role = assistant; content = "bob dug it"; tag = answer } ∷ []
unfolding run_lore_turn seed_session_from_run local_ai_server.Bot.Agent.Research.block_text
next_answer = refl

run_lore_turn-IsTurn_example : IsTurn world meeting "who dug?" thread next_turn
run_lore_turn-IsTurn_example =
    run_lore_turn-IsTurn library world limits caps budget meeting (some 3) "who dug?" thread

render_research_blocks-due_example :
    (occurrences "excerpt one" (
        shown_keys library
          (render_research_blocks library found_twice ("excerpt three" ∷ []) 0).blocks)
      ≡ due library ("excerpt three" ∷ []) (found_keys library found_twice) "excerpt one")
    × (contains
          (render_research_blocks library found_twice ("excerpt three" ∷ []) 0).keys
          "excerpt one"
        ≡ (contains {A = String} ("excerpt three" ∷ []) "excerpt one"
            || contains (found_keys library found_twice) "excerpt one"))
render_research_blocks-due_example =
    render_research_blocks-due library found_twice ("excerpt three" ∷ []) 0 "excerpt one"

-- A thread at its limit with two research blocks: the first is condensed, and the keys of its
-- excerpts stay among those seen.
abbrev full_thread : LoreSession
full_thread = record (append_research "[Search 2] moat" thread) { last_context_tokens = 1000 }

abbrev upkept : Bool × LoreSession
upkept = maybe_compact_session (λ n. "1") limits (streamed " short " none) full_thread

condensed_thread :
    (upkept.0 ≡ true)
    × (research_texts upkept.1.transcript
        ≡ "[Condensed research 1] earlier searches, summarised to save context\nshort"
          ∷ "[Search 2] moat" ∷ [])
    × (upkept.1.seen_keys ≡ "excerpt three" ∷ "excerpt two" ∷ "excerpt one" ∷ [])
unfolding maybe_compact_session seed_session_from_run
condensed_thread = (refl, refl, refl)
