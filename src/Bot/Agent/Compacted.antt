-- ===== src/Bot/Agent/Compacted.antt =====
-- discord-bot/lore/compaction.py: a rule for what compact_tool_rounds keeps.
use local_ai_server.Prelude.{
  Bool-cases, Option, String, [], false, inl, inr, is_empty, ltb, none, number_Eq, refl, some,
  text_Eq, ℕ, ◌/◌, ◌≡◌,
}
use local_ai_server.Prelude.Words.{is_blank, strip}
use local_ai_server.Bot.Agent.Messages.{Library}
use local_ai_server.Bot.Agent.Research.{render_research_blocks}
use local_ai_server.Bot.Agent.Metrics.{AgentMetrics, Usage, record_usage}
use local_ai_server.Bot.Agent.Condensing.{
  Rounds, bodies, compact_tool_rounds, condense_with, condensed_rounds, count_results,
  replace_victims, victims_from,
}
use local_ai_server.Bot.Agent.Rounds.{Finish}
use local_ai_server.Bot.Agent.Keeping.{Kept}

-- A compaction leaves the state, or replaces the oldest half of at least two results; before
-- that the metrics may change, but the counts of calls and rounds stay.
pub compact_tool_rounds-Kept :
    (lib : Library) (P : Rounds → Type 0) (F : Finish → Type 0)
    (summary : Option (String × Option Usage)) (n : ℕ) (s : Rounds)
    → P s
    → ((text : String) (m : AgentMetrics)
        → ltb (count_results s.tool_messages) 2 ≡ false
        → m.total_tool_calls ≡ s.metrics.total_tool_calls
        → m.rounds_executed ≡ s.metrics.rounds_executed
        → Kept P F (
            replace_victims lib
              (victims_from (count_results s.tool_messages / 2) none s.tool_messages)
              text
              (record s { metrics = m })))
    → Kept P F (compact_tool_rounds lib summary n s)
unfolding compact_tool_rounds condense_with record_usage
compact_tool_rounds-Kept lib P F summary n s h replaced =
    let victims = victims_from (count_results s.tool_messages / 2) none s.tool_messages in
    elim (Bool-cases (ltb (count_results s.tool_messages) 2)) [
      | inl e ↦ rw e h
      | inr e ↦
          elim (Bool-cases (is_empty (render_research_blocks lib (bodies victims) [] 0).blocks)) [
            | inl b ↦ rw (e, b) (replaced "" s.metrics e refl refl)
            | inr b ↦ rw (e, b) (condensed_Kept summary e)
          ]
    ]
  where
    condensed_Kept :
        (summary : Option (String × Option Usage))
        → ltb (count_results s.tool_messages) 2 ≡ false
        → Kept P F (
            condense_with lib n
              (victims_from (count_results s.tool_messages / 2) none s.tool_messages)
              summary
              s)
    condensed_Kept none few = h
    condensed_Kept (some (text, usage)) few = elim (Bool-cases (is_blank (strip text))) [
      | inl e ↦ rw e h
      | inr e ↦ rw e (
          replaced (condensed_rounds lib n (strip text)) (record_usage usage 0 0 s.metrics) few refl
            refl)
    ]
