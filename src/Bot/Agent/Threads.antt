-- ===== src/Bot/Agent/Threads.antt =====
-- discord-bot/lore/agent.py: the excerpts of a thread over all its turns.
use local_ai_server.Prelude.{
  Bool, Bool-cases, List, Option, String, [], contains, inl, inr, is_empty, not, number_Eq,
  occurrences, refl, subst, sym, text_Eq, ℕ, ◌++◌, ◌∷◌,
}
use local_ai_server.Prelude.Words.{is_blank}
use local_ai_server.Bot.Session.{
  LoreSession, answer, append_answer, append_question, assistant, build_messages, estimated_tokens,
  record_context,
}
use local_ai_server.Bot.Agent.Messages.{AgentMessage, Library}
use local_ai_server.Bot.Agent.Research.{Block}
use local_ai_server.Bot.Agent.Metrics.{AgentMetrics, record_usage}
use local_ai_server.Bot.Agent.Condensing.{Rounds, bodies}
use local_ai_server.Bot.Agent.Rounds.{Finish, Limits, World, answered, exhausted, raised, stuck}
use local_ai_server.Bot.Agent.Run.{Caps, LoreRunResult, Streamed, cut, streamed}
use local_ai_server.Bot.Agent.Turn.{
  Budget, Meeting, TurnOutcome, aborted, add_research, answer_nudge, close_turn, conclude_turn,
  empty_session, or_apology, or_retry, researched, run_lore_turn, search_rounds,
  seed_session_from_run, write_answer,
}
use local_ai_server.Bot.Agent.Growth.{conclude_turn-answered, question_turn}
use local_ai_server.Bot.Agent.Blocks.{
  GoesOn, GoesOn-add_research, IsThread, IsThread-other, thread_keys,
}
use mathlib.Core.List.{append-nil}

close_turn-IsThread :
    (lib : Library) (meeting : Meeting) (text : String) (m : AgentMetrics) (searched : Bool)
    (s : LoreSession) (bss : List (List Block))
    → IsThread lib s bss
    → IsThread lib (close_turn meeting text m searched s).1 bss
unfolding close_turn append_answer record_context
close_turn-IsThread lib meeting text m searched s bss =
    IsThread-other lib (record { role = assistant; content = or_apology text; tag = answer }) s
      (close_turn meeting text m searched s).1 bss refl refl refl

write_answer-IsThread :
    (lib : Library) (meeting : Meeting) (m : AgentMetrics) (searched : Bool) (s : LoreSession)
    (bss : List (List Block))
    → IsThread lib s bss
    → IsThread lib (write_answer meeting m searched s).1 bss
unfolding write_answer
write_answer-IsThread lib meeting m searched s bss h =
    let messages = build_messages (answer_nudge ∷ []) s in
    by_stream (or_retry (meeting.stream 0 messages) (meeting.stream 1 messages))
  where
    by_stream :
        (o : Streamed)
        → IsThread lib
            (elim o as (λ x. TurnOutcome × LoreSession) [
              | cut e ↦ (aborted e, s)
              | streamed text usage ↦ close_turn meeting text (record_usage usage 0 0 m) searched s
            ]).1
            bss
    by_stream (cut e) = h
    by_stream (streamed text usage) =
        close_turn-IsThread lib meeting text (record_usage usage 0 0 m) searched s bss h

GoesOn-researched :
    (lib : Library) (ms : List AgentMessage) (s : LoreSession) (bss : List (List Block))
    → IsThread lib s bss
    → GoesOn lib bss (researched lib ms s)
GoesOn-researched lib ms s bss h = elim (Bool-cases (is_empty ms)) [
  | inl e ↦ rw e ([], subst (λ b. IsThread lib s b) (sym (append-nil bss)) h)
  | inr e ↦ rw e (GoesOn-add_research lib ms s.searches s bss h)
]

conclude_turn-GoesOn :
    (lib : Library) (meeting : Meeting) (finish : Finish) (rounds : Rounds) (s : LoreSession)
    (bss : List (List Block))
    → IsThread lib s bss
    → GoesOn lib bss (conclude_turn lib meeting finish rounds s).1
unfolding conclude_turn
conclude_turn-GoesOn lib meeting stuck rounds s bss h =
    ([], subst (λ b. IsThread lib s b) (sym (append-nil bss)) h)
conclude_turn-GoesOn lib meeting (raised e) rounds s bss h =
    ([], subst (λ b. IsThread lib s b) (sym (append-nil bss)) h)
conclude_turn-GoesOn lib meeting exhausted rounds s bss h =
    let tools = bodies rounds.tool_messages in
    let (more, k) = GoesOn-researched lib tools s bss h in
    (
      more,
      write_answer-IsThread lib meeting rounds.metrics (not (is_empty tools))
          (researched lib tools s) (bss ++ more) k,
    )
conclude_turn-GoesOn lib meeting (answered text) rounds s bss h =
    let tools = bodies rounds.tool_messages in
    let searched = not (is_empty tools) in
    let (more, k) = GoesOn-researched lib tools s bss h in
    let s' = researched lib tools s in
    elim (Bool-cases (is_blank text)) [
      | inl e ↦
          rw e (more, write_answer-IsThread lib meeting rounds.metrics searched s' (bss ++ more) k)
      | inr e ↦
          subst (λ o. GoesOn lib bss o.1) (sym (conclude_turn-answered lib meeting text rounds s e))
            (more, close_turn-IsThread lib meeting text rounds.metrics searched s' (bss ++ more) k)
    ]

-- A turn to come.
pub record Asked : Type 0 where
  pub world : World
  pub meeting : Meeting
  pub max_rounds : Option ℕ
  pub text : String

module _ (lib : Library) (limits : Limits) (caps : Caps) (budget : Budget) where
  unfoldable pub run_turns : List Asked → LoreSession → LoreSession
  unfolding run_lore_turn
  run_turns [] s = s
  run_turns (a ∷ asks) s =
      run_turns asks
        (run_lore_turn lib a.world limits caps budget a.meeting a.max_rounds a.text s).1

  run_lore_turn-GoesOn :
      (a : Asked) (s : LoreSession) (bss : List (List Block))
      → IsThread lib s bss
      → GoesOn lib bss
          (run_lore_turn lib a.world limits caps budget a.meeting a.max_rounds a.text s).1
  unfolding run_lore_turn append_question
  run_lore_turn-GoesOn a s bss h =
      let s' = append_question a.meeting.asked_at a.text s in
      let ran = search_rounds lib a.world limits caps budget a.max_rounds s' in
      conclude_turn-GoesOn lib a.meeting ran.0 ran.1 s' bss
        (IsThread-other lib (question_turn a.text) s s' bss refl refl refl h)

  run_turns-IsThread :
      (asks : List Asked) (s : LoreSession) (bss : List (List Block))
      → IsThread lib s bss
      → (ends : List (List Block)) × IsThread lib (run_turns asks s) ends
  unfolding run_turns
  run_turns-IsThread [] s bss h = (bss, h)
  run_turns-IsThread (a ∷ asks) s bss h =
      let (more, k) = run_lore_turn-GoesOn a s bss h in
      run_turns-IsThread asks
        (run_lore_turn lib a.world limits caps budget a.meeting a.max_rounds a.text s).1
        (bss ++ more) k

  seed_session_from_run-IsThread :
      (now thread_id : ℕ) (prompt pinned q : String) (run : LoreRunResult)
      → GoesOn lib [] (seed_session_from_run lib now thread_id prompt pinned q run)
  unfolding seed_session_from_run append_question append_answer record_context estimated_tokens
      thread_keys occurrences contains
  seed_session_from_run-IsThread now thread_id prompt pinned q run =
      let asked = append_question now q (empty_session now thread_id prompt q pinned) in
      let s = add_research lib run.tool_messages 0 asked in
      let (more, k) = GoesOn-add_research lib run.tool_messages 0 asked [] (refl, λ j. refl) in
      (
        more,
        IsThread-other lib (record { role = assistant; content = run.answer; tag = answer }) s
            (seed_session_from_run lib now thread_id prompt pinned q run) more refl refl refl k,
      )

  -- In a thread that an opening run seeds and any turns continue, before it is compacted: its
  -- research blocks are the texts of rendered blocks in which the key of each excerpt stands at
  -- most once, over all blocks of all turns, and exactly once if the session has it as seen.
  pub run_turns-shows_once :
      (now thread_id : ℕ) (prompt pinned q : String) (run : LoreRunResult) (asks : List Asked)
      → (bss : List (List Block)) × IsThread lib
          (run_turns asks (seed_session_from_run lib now thread_id prompt pinned q run))
          bss
  run_turns-shows_once now thread_id prompt pinned q run asks =
      let (bss, h) = seed_session_from_run-IsThread now thread_id prompt pinned q run in
      run_turns-IsThread asks (seed_session_from_run lib now thread_id prompt pinned q run) bss h
