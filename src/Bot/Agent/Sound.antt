-- ===== src/Bot/Agent/Sound.antt =====
-- discord-bot/lore/agent.py and compaction.py: calls and results in both lists of the tool loop.
use local_ai_server.Prelude.{
  Bool-cases, List, Option, Option-cases, String, [], inl, inr, is_empty, ltb, none, number_Eq,
  refl, some, text_Eq, ℕ, ◌&&◌, ◌*◌, ◌+◌, ◌/◌, ◌∷◌,
}
use local_ai_server.Prelude.Dict.{lookup}
use local_ai_server.Prelude.Words.{is_blank, strip}
use local_ai_server.Bot.Session.{Role, Sent, user}
use local_ai_server.Bot.Agent.Messages.{
  Entry, Library, ToolCall, args_of, call, condensed, plain, result,
}
use local_ai_server.Bot.Agent.Research.{render_research_blocks}
use local_ai_server.Bot.Agent.Metrics.{Usage, record_usage}
use local_ai_server.Bot.Agent.Condensing.{
  Rounds, bodies, compact_tool_rounds, condense_with, condensed_rounds, count_results, has_victim,
  idents, new_entry, replace_victims, victims_from,
}
use local_ai_server.Bot.Agent.Rounds.{World, append_pair, call_tool, nudge, number_from}
use local_ai_server.Bot.Agent.Keeping.{IsKept, Kept}
use local_ai_server.Bot.Agent.Pairing.{
  IsClosed, IsPaired, append-IsPaired, put_for-IsPaired, victims_from-IsClosed,
}

-- In both lists every call has its result behind it.
abbrev pub BothPaired : Rounds → Type 0
BothPaired s = IsPaired s.messages × IsPaired s.tool_messages

append_pair-BothPaired :
    (tc : ToolCall) (reasoning text : String) (s : Rounds)
    → BothPaired s
    → BothPaired (append_pair tc reasoning text s)
unfolding append_pair
append_pair-BothPaired tc reasoning text s h =
    let pair : List Entry =
      (2 * s.next, call tc reasoning) ∷ (2 * s.next + 1, result tc.name text tc.id) ∷ [] in
    let paired : IsPaired pair = ((s.next, refl, refl, refl), tt) in
    (append-IsPaired s.messages pair h.0 paired, append-IsPaired s.tool_messages pair h.1 paired)

module _ (lib : Library) where
  call_tool-BothPaired :
      (w : World) (round : ℕ) (tc : ToolCall) (s : Rounds)
      → BothPaired s
      → BothPaired (call_tool lib w round tc s).1
  unfolding call_tool
  call_tool-BothPaired w round tc s h =
      elim (Option-cases (lookup (lib.dump tc.name (args_of lib tc)) s.ran)) [
        | inl e ↦ rw (e, call_tool) h
        | inr (first, e) ↦ rw (e, call_tool) h
      ]

  new_entry-IsPaired :
      (k : ℕ) (role : Role) (text : String)
      → IsPaired (new_entry k (plain role text) text) × IsPaired (new_entry k (condensed text) text)
  new_entry-IsPaired k role text = elim (Bool-cases (is_blank text)) [
    | inl e ↦ rw e (tt, tt)
    | inr e ↦ rw e (tt, tt)
  ]

  abbrev KeepsPairs : Option (ℕ × Rounds) → Type 0
  KeepsPairs = Kept BothPaired (λ finish. Unit)

  replace_victims-KeepsPairs :
      (victims : List Entry) (text : String) (s : Rounds)
      → IsClosed (idents victims)
      → BothPaired s
      → KeepsPairs (replace_victims lib victims text s)
  unfolding replace_victims
  replace_victims-KeepsPairs victims text s c h =
      let ids = idents victims in
      elim (Bool-cases (has_victim ids s.messages && has_victim ids s.tool_messages)) [
        | inl e ↦ rw e (
          put_for-IsPaired ids (new_entry s.next (plain user text) text) s.messages c
              (new_entry-IsPaired s.next user text).0 h.0,
          put_for-IsPaired ids (new_entry (s.next + 1) (condensed text) text) s.tool_messages c
              (new_entry-IsPaired (s.next + 1) user text).1 h.1,
        )
        | inr e ↦ rw e tt
      ]

  condense_with-KeepsPairs :
      (n : ℕ) (victims : List Entry) (summary : Option (String × Option Usage)) (s : Rounds)
      → IsClosed (idents victims)
      → BothPaired s
      → KeepsPairs (condense_with lib n victims summary s)
  unfolding condense_with
  condense_with-KeepsPairs n victims none s c h = h
  condense_with-KeepsPairs n victims (some (text, usage)) s c h =
      elim (Bool-cases (is_blank (strip text))) [
        | inl e ↦ rw e h
        | inr e ↦ rw e (
            replace_victims-KeepsPairs victims (condensed_rounds lib n (strip text))
              (record s { metrics = record_usage usage 0 0 s.metrics }) c h)
      ]

  compact_tool_rounds-KeepsPairs :
      (summary : Option (String × Option Usage)) (n : ℕ) (s : Rounds)
      → BothPaired s
      → KeepsPairs (compact_tool_rounds lib summary n s)
  unfolding compact_tool_rounds
  compact_tool_rounds-KeepsPairs summary n s h =
      let victims = victims_from (count_results s.tool_messages / 2) none s.tool_messages in
      let closed =
        victims_from-IsClosed (count_results s.tool_messages / 2) none s.tool_messages h.1 in
      elim (Bool-cases (ltb (count_results s.tool_messages) 2)) [
        | inl e ↦ rw e h
        | inr e ↦
            elim (Bool-cases (is_empty (render_research_blocks lib (bodies victims) [] 0).blocks)) [
              | inl b ↦ rw (e, b) (replace_victims-KeepsPairs victims "" s closed h)
              | inr b ↦ rw (e, b) (condense_with-KeepsPairs n victims summary s closed h)
            ]
      ]

  pub BothPaired-IsKept : (w : World) → IsKept lib w BothPaired (λ finish. Unit)
  unfolding nudge
  BothPaired-IsKept w = record {
    by_call = λ round reasoning tc s h.
        let called = call_tool lib w round tc s in
        append_pair-BothPaired tc reasoning called.0 called.1 (call_tool-BothPaired w round tc s h);
    by_nudge = λ s h. (append-IsPaired s.messages _ h.0 tt, h.1);
    by_compaction =
        λ summary n s h. compact_tool_rounds-KeepsPairs summary n (record s { compactions = n }) h;
    by_count = λ n s h. h;
    by_limit = tt;
    by_answer = λ round r e p. tt;
    by_failure = λ round error e. tt;
  }

pub number_from-IsPaired : (k : ℕ) (ms : List Sent) → IsPaired (number_from k ms)
number_from-IsPaired k [] = tt
number_from-IsPaired k (m ∷ ms) = number_from-IsPaired (k + 1) ms
