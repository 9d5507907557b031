-- ===== src/Bot/Agent/Once.antt =====
-- discord-bot/lore/agent.py: the searches that ran and the calls that were counted.
use local_ai_server.Prelude.{
  Bool-cases, List, Option-cases, String, [], arith, false, if◌then◌else◌, inl, inr, length,
  length-append, none, number_Eq, occurrences, occurrences-append, refl, text_Eq, ℕ, ◌&&◌, ◌+◌,
  ◌==◌, ◌||◌, ◌∙◌, ◌∷◌, ◌≡◌, ◌≤◌,
}
use local_ai_server.Prelude.Dict.{Dict, has, insert, lookup, lookup-insert}
use local_ai_server.Bot.Session.{Sent}
use local_ai_server.Bot.Agent.Messages.{Entry, Library, ToolCall, args_of}
use local_ai_server.Bot.Agent.Condensing.{Rounds, has_victim, idents, replace_victims}
use local_ai_server.Bot.Agent.Rounds.{
  Finish, Limits, World, append_pair, call_tool, first_state, nudge, run_tool_rounds, stuck,
}
use local_ai_server.Bot.Agent.Keeping.{IsKept, Kept, do_call, rounds_from-keeps}
use local_ai_server.Bot.Agent.Compacted.{compact_tool_rounds-Kept}

-- A search is in the trace once if it is among those that ran, and else not at all; each call was
-- run or refused.
abbrev pub IsCounted : Rounds → Type 0
IsCounted s =
    ((t : String) → occurrences t s.executed ≡ (if has t s.ran then 1 else 0))
    × (s.metrics.total_tool_calls ≡ length s.executed + s.repeats)

has-insert : (k j : String) (v : ℕ) (d : Dict String ℕ) → has j (insert k v d) ≡ (k == j || has j d)
unfolding has
has-insert k j v d = elim (Bool-cases (k == j)) [
  | inl same ↦ rw (has, lookup-insert k j v d, same) refl
  | inr other ↦ rw (has, lookup-insert k j v d, other) refl
]

has-absent : (k : String) (d : Dict String ℕ) → lookup k d ≡ none → has k d ≡ false
unfolding has
has-absent k d h = rw (has, h) refl

call-IsCounted :
    (lib : Library) (w : World) (round : ℕ) (reasoning : String) (tc : ToolCall) (s : Rounds)
    → IsCounted s
    → IsCounted (do_call lib w round reasoning tc s)
unfolding call_tool append_pair occurrences length has
call-IsCounted lib w round reasoning tc s h =
    let key = lib.dump tc.name (args_of lib tc) in
    elim (Option-cases (lookup key s.ran)) [
      | inl e ↦
          rw (e, call_tool)
            (
              λ t.
                  rw
                    (
                      occurrences-append t s.executed (key ∷ []),
                      h.0 t,
                      has-insert key t round s.ran,
                    )
                    (ground (arith, has-absent key s.ran e, text_Eq.test_iff key t)),
              omega (arith, h.1, length-append s.executed (key ∷ [])),
            )
      | inr (first, e) ↦ rw (e, call_tool) (h.0, omega (arith, h.1))
    ]

replace_victims-IsCounted :
    (lib : Library) (F : Finish → Type 0) (victims : List Entry) (text : String) (s : Rounds)
    → F stuck
    → IsCounted s
    → Kept IsCounted F (replace_victims lib victims text s)
unfolding replace_victims
replace_victims-IsCounted lib F victims text s f h =
    let ids = idents victims in
    elim (Bool-cases (has_victim ids s.messages && has_victim ids s.tool_messages)) [
      | inl e ↦ rw e h
      | inr e ↦ rw e f
    ]

IsCounted-IsKept : (lib : Library) (w : World) → IsKept lib w IsCounted (λ finish. Unit)
unfolding nudge
IsCounted-IsKept lib w = record {
  by_call = λ round reasoning tc s h. call-IsCounted lib w round reasoning tc s h;
  by_nudge = λ s h. h;
  by_compaction = λ summary n s h.
      compact_tool_rounds-Kept lib IsCounted (λ finish. Unit) summary n
        (record s { compactions = n }) h
        (λ text m few same same'.
          replace_victims-IsCounted lib (λ finish. Unit) _ text
            (record s { compactions = n; metrics = m }) tt (h.0, same ∙ h.1));
  by_count = λ n s h. h;
  by_limit = tt;
  by_answer = λ round r e p. tt;
  by_failure = λ round error e. tt;
}

-- However the model and the tools answer, no search (a tool's name with its arguments) is run
-- twice in a run of the loop, and the calls counted in the metrics are the searches that were run
-- and the repeats that were refused.
pub run_tool_rounds-once :
    (lib : Library) (w : World) (limits : Limits) (max_rounds : ℕ) (messages : List Sent)
    (seen : List String)
    → ((search : String)
        → occurrences search (run_tool_rounds lib w limits max_rounds messages seen).1.executed ≤ 1)
      × ((run_tool_rounds lib w limits max_rounds messages seen).1.metrics.total_tool_calls
          ≡ length (run_tool_rounds lib w limits max_rounds messages seen).1.executed
            + (run_tool_rounds lib w limits max_rounds messages seen).1.repeats)
unfolding run_tool_rounds occurrences has lookup length
run_tool_rounds-once lib w limits max_rounds messages seen =
    let start_IsCounted : IsCounted (first_state messages seen) = (λ t. refl, refl) in
    let (finish, counted) =
      rounds_from-keeps lib w IsCounted (λ finish. Unit) limits max_rounds 0
        (first_state messages seen) (IsCounted-IsKept lib w) (λ s h. h) (λ usage s h. h)
        start_IsCounted in
    (λ t. ground (arith, counted.0 t), counted.1)
