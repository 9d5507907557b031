-- ===== src/Bot/Agent/Keeping.antt =====
-- discord-bot/lore/agent.py: a rule for what the tool loop keeps.
use local_ai_server.Prelude.{
  Bool-cases, List, Option, String, [], false, inl, inr, is_empty, leb, ltb, none, number_Eq, refl,
  some, suc, text_Eq, true, zero, ℕ, ◌*◌, ◌+◌, ◌/◌, ◌∷◌, ◌≡◌,
}
use local_ai_server.Prelude.Words.{is_blank, strip}
use local_ai_server.Bot.Agent.Messages.{Library, ToolCall}
use local_ai_server.Bot.Agent.Research.{text_of}
use local_ai_server.Bot.Agent.Metrics.{Usage, context_used}
use local_ai_server.Bot.Agent.Condensing.{Rounds, compact_tool_rounds}
use local_ai_server.Bot.Agent.Rounds.{
  Finish, Limits, Outcome, Reply, Turned, World, after_condensing, answered, append_pair, call_tool,
  close_round, count_round, exhausted, failed, go, note_usage, nudge, one_round, raised,
  read_reply_of, replied, rounds_from, run_calls, stop, stuck,
}

-- The state that a round leaves, and how it ended.
abbrev pub state_of : Turned → Rounds
state_of (stop finish s) = s
state_of (go s) = s

abbrev pub IsFor : (Finish → Type 0) → Turned → Type 0
IsFor F (stop finish s) = F finish
IsFor F (go s) = Unit

-- A compaction that succeeds leaves a state with P; one that fails ends the loop with F.
abbrev pub Kept : (Rounds → Type 0) → (Finish → Type 0) → Option (ℕ × Rounds) → Type 0
Kept P F none = F stuck
Kept P F (some (reclaimed, s)) = P s

-- The model answered in prose: no tool call, and text that is not blank.
abbrev pub IsProse : Reply → Type 0
IsProse r = (is_empty r.tool_calls ≡ true) × (is_blank (strip (text_of r.content)) ≡ false)

-- One tool call.
abbrev pub do_call : Library → World → ℕ → String → ToolCall → Rounds → Rounds
do_call lib w round reasoning tc s =
    let called = call_tool lib w round tc s in append_pair tc reasoning called.0 called.1

-- P is kept inside a round, and F holds of each way to stop.
pub record IsKept (lib : Library) (w : World) (P : Rounds → Type 0) (F : Finish → Type 0)
    : Type 0 where
  pub by_call :
      (round : ℕ) (reasoning : String) (tc : ToolCall) (s : Rounds)
      → P s
      → P (do_call lib w round reasoning tc s)
  pub by_nudge : (s : Rounds) → P s → P (nudge s)
  pub by_compaction :
      (summary : Option (String × Option Usage)) (n : ℕ) (s : Rounds)
      → P s
      → Kept P F (compact_tool_rounds lib summary n (record s { compactions = n }))
  pub by_count : (n : ℕ) (s : Rounds) → P s → P (record s { compactions = n })
  pub by_limit : F exhausted
  pub by_answer :
      (round : ℕ) (r : Reply)
      → w.reply round ≡ replied r
      → IsProse r
      → F (answered (strip (text_of r.content)))
  pub by_failure : (round : ℕ) (error : String) → w.reply round ≡ failed error → F (raised error)

-- The state has P, and the end, if it is one, has F.
abbrev pub Good : (Rounds → Type 0) → (Finish → Type 0) → Turned → Type 0
Good P F t = P (state_of t) × IsFor F t

module _ (lib : Library) (w : World) (P : Rounds → Type 0) (F : Finish → Type 0)
    (kept : IsKept lib w P F) where
  run_calls-keeps :
      (round : ℕ) (reasoning : String) (tcs : List ToolCall) (s : Rounds)
      → P s
      → P (run_calls lib w round reasoning tcs s).1
  unfolding run_calls
  run_calls-keeps round reasoning [] s h = h
  run_calls-keeps round reasoning (tc ∷ tcs) s h =
      run_calls-keeps round "" tcs (do_call lib w round reasoning tc s)
        (kept.by_call round reasoning tc s h)

  after_condensing-Good :
      (limits : Limits) (projected : ℕ) (done : Option (ℕ × Rounds)) (s : Rounds)
      → P s
      → Kept P F done
      → Good P F (after_condensing limits projected done s)
  after_condensing-Good limits projected none s h k = (h, k)
  after_condensing-Good limits projected (some (reclaimed, s')) s h k =
      elim (Bool-cases
        (leb (limits.hard_percent * limits.context + 100 * reclaimed) (100 * projected))) [
          | inl e ↦ rw e (k, kept.by_limit)
          | inr e ↦ rw e (k, tt)
        ]

  close_round-Good :
      (limits : Limits) (chars : ℕ) (s : Rounds) → P s → Good P F (close_round lib w limits chars s)
  unfolding close_round
  close_round-Good limits chars s h =
      let projected = context_used s.metrics + chars / 3 in
      let n = s.compactions + 1 in
      let s' = record s { compactions = n } in
      elim (Bool-cases (leb limits.max_repeats s.repeats)) [
        | inl e ↦ rw e (h, kept.by_limit)
        | inr e ↦
            elim (Bool-cases (ltb (100 * projected) (limits.compact_percent * limits.context))) [
              | inl b ↦ rw (e, b) (h, tt)
              | inr b ↦
                  rw (e, b)
                    (after_condensing-Good limits projected
                      (compact_tool_rounds lib (w.summary n) n s') s' (kept.by_count n s h)
                      (kept.by_compaction (w.summary n) n s h))
            ]
      ]

  pub read_reply_of-Good :
      (limits : Limits) (round : ℕ) (reply : Reply) (s : Rounds)
      → w.reply round ≡ replied reply
      → P s
      → Good P F (read_reply_of lib w limits round reply s)
  unfolding read_reply_of
  read_reply_of-Good limits round reply s is_reply h =
      let done = run_calls lib w (round + 1) (strip reply.reasoning) reply.tool_calls s in
      elim (Bool-cases (is_empty reply.tool_calls)) [
        | inr e ↦ rw e (
            close_round-Good limits done.0 done.1
              (run_calls-keeps (round + 1) (strip reply.reasoning) reply.tool_calls s h))
        | inl e ↦ elim (Bool-cases (is_blank (strip (text_of reply.content)))) [
          | inl b ↦ rw (e, b) (kept.by_nudge s h, tt)
          | inr b ↦ rw (e, b) (h, kept.by_answer round reply is_reply (e, b))
        ]
      ]

-- A round from a counted state: what P says after the counting, the round leaves.
pub one_round-Good :
    (lib : Library) (w : World) (P : Rounds → Type 0) (F : Finish → Type 0) (limits : Limits)
    (round : ℕ) (s : Rounds)
    → IsKept lib w P F
    → P (count_round s)
    → ((usage : Option Usage) → P (note_usage usage (count_round s)))
    → Good P F (one_round lib w limits round s)
unfolding one_round
one_round-Good lib w P F limits round s kept counted noted = by_outcome (w.reply round) refl
  where
    by_outcome :
        (o : Outcome)
        → w.reply round ≡ o
        → Good P F (elim o as (λ x. Turned) [
          | failed error ↦ stop (raised error) (count_round s)
          | replied reply ↦
              read_reply_of lib w limits round reply (note_usage reply.usage (count_round s))
        ])
    by_outcome (failed error) e = (counted, kept.by_failure round error e)
    by_outcome (replied reply) e =
        read_reply_of-Good lib w P F kept limits round reply
          (note_usage reply.usage (count_round s)) e (noted reply.usage)

-- The loop keeps P when the counters of the metrics leave it, and ends with F.
pub rounds_from-keeps :
    (lib : Library) (w : World) (P : Rounds → Type 0) (F : Finish → Type 0) (limits : Limits)
    (left round : ℕ) (s : Rounds)
    → IsKept lib w P F
    → ((s : Rounds) → P s → P (count_round s))
    → ((usage : Option Usage) (s : Rounds) → P s → P (note_usage usage s))
    → P s
    → F (rounds_from lib w limits left round s).0 × P (rounds_from lib w limits left round s).1
unfolding rounds_from
rounds_from-keeps lib w P F limits zero round s kept count note h = (kept.by_limit, h)
rounds_from-keeps lib w P F limits (suc left) round s kept count note h =
    onward (one_round lib w limits round s)
      (one_round-Good lib w P F limits round s kept (count s h)
        (λ usage. note usage (count_round s) (count s h)))
      (λ s' k. rounds_from-keeps lib w P F limits left (round + 1) s' kept count note k)
  where
    onward :
        (t : Turned)
        → Good P F t
        → ((s' : Rounds)
            → P s'
            → F (rounds_from lib w limits left (round + 1) s').0
              × P (rounds_from lib w limits left (round + 1) s').1)
        → F
            (elim t as (λ x. Finish × Rounds) [
              | stop finish s' ↦ (finish, s')
              | go s' ↦ rounds_from lib w limits left (round + 1) s'
            ]).0
          × P
              (elim t as (λ x. Finish × Rounds) [
                | stop finish s' ↦ (finish, s')
                | go s' ↦ rounds_from lib w limits left (round + 1) s'
              ]).1
    onward (stop finish s') g ih = (g.1, g.0)
    onward (go s') g ih = ih s' g.0
