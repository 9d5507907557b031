-- ===== src/Bot/Agent/Stops.antt =====
-- discord-bot/lore/agent.py: the number of requests of the tool loop.
use local_ai_server.Prelude.{
  Bool-cases, List, Option-cases, String, arith, inl, inr, min, nat_eq_iff, number_Eq, refl, subst,
  suc, sym, text_Eq, zero, ℕ, ◌&&◌, ◌+◌, ◌==◌, ◌∙◌, ◌≡◌, ◌≤◌,
}
use local_ai_server.Prelude.Dict.{lookup}
use local_ai_server.Bot.Agent.Messages.{Entry, Library, ToolCall, args_of}
use local_ai_server.Bot.Agent.Metrics.{record_usage}
use local_ai_server.Bot.Agent.Condensing.{Rounds, has_victim, idents, replace_victims}
use local_ai_server.Bot.Agent.Rounds.{
  Finish, Limits, Outcome, Turned, World, append_pair, call_tool, count_round, failed, first_state,
  go, note_usage, nudge, one_round, raised, read_reply_of, replied, rounds_from, run_tool_rounds,
  stop,
}
use local_ai_server.Bot.Agent.Keeping.{IsKept, IsProse, Kept, do_call, one_round-Good, state_of}
use local_ai_server.Bot.Agent.Compacted.{compact_tool_rounds-Kept}
use local_ai_server.Bot.Session.{Sent}

-- A reply that ends the loop: prose, or an error.
abbrev pub IsFinal : Outcome → Type 0
IsFinal (failed error) = Unit
IsFinal (replied reply) = IsProse reply

-- As many rounds as `n`.
abbrev pub IsAt : ℕ → Rounds → Type 0
IsAt n s = s.metrics.rounds_executed ≡ n

call-IsAt :
    (lib : Library) (w : World) (n round : ℕ) (reasoning : String) (tc : ToolCall) (s : Rounds)
    → IsAt n s
    → IsAt n (do_call lib w round reasoning tc s)
unfolding call_tool append_pair
call-IsAt lib w n round reasoning tc s h =
    elim (Option-cases (lookup (lib.dump tc.name (args_of lib tc)) s.ran)) [
      | inl e ↦ rw (e, call_tool) h
      | inr (first, e) ↦ rw (e, call_tool) h
    ]

replace_victims-IsAt :
    (lib : Library) (n : ℕ) (victims : List Entry) (text : String) (s : Rounds)
    → IsAt n s
    → Kept (IsAt n) (λ finish. Unit) (replace_victims lib victims text s)
unfolding replace_victims
replace_victims-IsAt lib n victims text s h =
    let ids = idents victims in
    elim (Bool-cases (has_victim ids s.messages && has_victim ids s.tool_messages)) [
      | inl e ↦ rw e h
      | inr e ↦ rw e tt
    ]

IsAt-IsKept : (lib : Library) (w : World) (n : ℕ) → IsKept lib w (IsAt n) (λ finish. Unit)
unfolding nudge
IsAt-IsKept lib w n = record {
  by_call = λ round reasoning tc s h. call-IsAt lib w n round reasoning tc s h;
  by_nudge = λ s h. h;
  by_compaction = λ summary k s h.
      compact_tool_rounds-Kept lib (IsAt n) (λ finish. Unit) summary k
        (record s { compactions = k }) h
        (λ text m few same same'.
          replace_victims-IsAt lib n _ text (record s { compactions = k; metrics = m })
            (same' ∙ h));
  by_count = λ k s h. h;
  by_limit = tt;
  by_answer = λ round r e p. tt;
  by_failure = λ round error e. tt;
}

-- A round counts one.
one_round-counts :
    (lib : Library) (w : World) (limits : Limits) (round : ℕ) (s : Rounds)
    → IsAt (s.metrics.rounds_executed + 1) (state_of (one_round lib w limits round s))
unfolding record_usage
one_round-counts lib w limits round s =
    (one_round-Good lib w (IsAt (s.metrics.rounds_executed + 1)) (λ finish. Unit) limits round s
      (IsAt-IsKept lib w (s.metrics.rounds_executed + 1)) refl (λ usage. refl)).0

-- The loop goes on.
abbrev Goes : Turned → Type 0
Goes (stop finish s) = ⊥
Goes (go s) = Unit

one_round-stops :
    (lib : Library) (w : World) (limits : Limits) (round : ℕ) (s : Rounds)
    → IsFinal (w.reply round)
    → ¬ Goes (one_round lib w limits round s)
unfolding one_round read_reply_of
one_round-stops lib w limits round s = by_outcome (w.reply round)
  where
    by_outcome :
        (o : Outcome)
        → IsFinal o
        → ¬ Goes (elim o as (λ x. Turned) [
          | failed error ↦ stop (raised error) (count_round s)
          | replied reply ↦
              read_reply_of lib w limits round reply (note_usage reply.usage (count_round s))
        ])
    by_outcome (failed error) h = λ x. x
    by_outcome (replied reply) h = rw (h.0, h.1) (λ x. x)

-- From round `round` with `start` rounds counted: at most `left` more are, and after a final reply
-- none.
abbrev IsBounded : World → ℕ → ℕ → ℕ → ℕ → Type 0
IsBounded w start left round end =
    (end ≤ start + left) × ((n : ℕ) → round ≤ n → IsFinal (w.reply n) → end + round ≤ start + n + 1)

IsBounded-step :
    (w : World) (start left round : ℕ) (t : Turned) (next : Rounds → Finish × Rounds)
    → IsAt (start + 1) (state_of t)
    → (IsFinal (w.reply round) → ¬ Goes t)
    → ((s : Rounds)
        → IsBounded w s.metrics.rounds_executed left (round + 1) (next s).1.metrics.rounds_executed)
    → IsBounded w start
        (suc left)
        round
        (elim t as (λ x. Finish × Rounds) [
          | stop finish s ↦ (finish, s)
          | go s ↦ next s
        ]).1.metrics.rounds_executed
IsBounded-step w start left round (stop finish s) next at ends ih =
    (omega (arith, at), λ n le final. omega (arith, at, le))
IsBounded-step w start left round (go s) next at ends ih = (
  omega (arith, at, (ih s).0),
  λ n le final. elim (Bool-cases (round == n)) [
    | inl same ↦
        absurd
          (ends (subst (λ k. IsFinal (w.reply k)) (sym ((nat_eq_iff round n).0 same)) final) tt)
    | inr other ↦
        omega (arith, at, (ih s).1 n (ground (arith, le, other, nat_eq_iff round n)) final)
  ],
)

rounds_from-IsBounded :
    (lib : Library) (w : World) (limits : Limits) (left round : ℕ) (s : Rounds)
    → IsBounded w s.metrics.rounds_executed left round
        (rounds_from lib w limits left round s).1.metrics.rounds_executed
unfolding rounds_from
rounds_from-IsBounded lib w limits zero round s = (omega arith, λ n le final. omega (arith, le))
rounds_from-IsBounded lib w limits (suc left) round s =
    IsBounded-step w s.metrics.rounds_executed left round (one_round lib w limits round s)
      (rounds_from lib w limits left (round + 1)) (one_round-counts lib w limits round s)
      (one_round-stops lib w limits round s) (rounds_from-IsBounded lib w limits left (round + 1))

-- Each round makes one request.
pub run_tool_rounds_bound :
    (lib : Library) (w : World) (limits : Limits) (max_rounds : ℕ) (messages : List Sent)
    (seen : List String)
    → (run_tool_rounds lib w limits max_rounds messages seen).1.metrics.rounds_executed ≤ max_rounds
unfolding run_tool_rounds
run_tool_rounds_bound lib w limits max_rounds messages seen =
    omega (arith, (rounds_from-IsBounded lib w limits max_rounds 0 (first_state messages seen)).0)

-- However the tools and the summariser answer, if the answer to the n-th request (from 0) is prose
-- without a tool call, or an error, the loop makes at most n + 1 requests, and never more than
-- `max_rounds`.
pub run_tool_rounds-stops :
    (lib : Library) (w : World) (limits : Limits) (max_rounds : ℕ) (messages : List Sent)
    (seen : List String) (n : ℕ)
    → IsFinal (w.reply n)
    → (run_tool_rounds lib w limits max_rounds messages seen).1.metrics.rounds_executed
      ≤ min max_rounds (n + 1)
unfolding run_tool_rounds
run_tool_rounds-stops lib w limits max_rounds messages seen n final =
    let bounded = rounds_from-IsBounded lib w limits max_rounds 0 (first_state messages seen) in
    let few = bounded.1 n (omega arith) final in omega (arith, bounded.0, few)
