-- ===== src/Bot/Agent/Opening.antt =====
-- discord-bot/lore/agent.py: the result of the opening run.
use local_ai_server.Prelude.{
  Bool-cases, List, Option, String, [], arith, false, inl, inr, max, none, number_Eq, refl, some,
  text_Eq, true, ℕ, ◌∷◌, ◌≡◌, ◌≤◌, ◌⊎◌,
}
use local_ai_server.Prelude.Words.{concat, is_blank, length_of, strip}
use local_ai_server.Bot.Session.{Sent}
use local_ai_server.Bot.Agent.Messages.{AgentMessage, Library}
use local_ai_server.Bot.Agent.Metrics.{record_usage}
use local_ai_server.Bot.Agent.Condensing.{Rounds, bodies}
use local_ai_server.Bot.Agent.Rounds.{
  Finish, Limits, World, answered, exhausted, failed, raised, run_tool_rounds, stuck,
}
use local_ai_server.Bot.Agent.Stops.{run_tool_rounds_bound}
use local_ai_server.Bot.Agent.Ends.{IsCaused, run_tool_rounds-IsSound}
use local_ai_server.Bot.Agent.Run.{
  Caps, LoreRunResult, Prompts, Streamed, chars_of_sent, clamp_rounds, conclude_run, cut,
  opening_messages, or_default, run_agent_loop, streamed, synthesis_messages, synthesise,
  with_error,
}

-- A request of the loop or of the synthesis raised this error.
abbrev pub IsFailure : World → (List Sent → Streamed) → String → Type 0
IsFailure w stream e =
    ((round : ℕ) × (w.reply round ≡ failed e)) ⊎ ((ms : List Sent) × (stream ms ≡ cut e))

-- At most `bound` rounds; and either all is well, or an error is recorded that a request raised.
abbrev pub IsRun : World → (List Sent → Streamed) → ℕ → LoreRunResult → Type 0
IsRun w stream bound r =
    (r.metrics.rounds_executed ≤ bound)
    × ((r.ok ≡ true)
        ⊎ ((e : String) × (r.ok ≡ false) × (r.metrics.error ≡ some e) × IsFailure w stream e))

synthesise-IsRun :
    (lib : Library) (w : World) (prompts : Prompts) (stream : List Sent → Streamed) (q : String)
    (bound : ℕ) (s : Rounds)
    → s.metrics.rounds_executed ≤ bound
    → IsRun w stream bound (synthesise lib prompts stream q s)
unfolding synthesise record_usage
synthesise-IsRun lib w prompts stream q bound s few = by_stream (stream messages) refl
  where
    research : List AgentMessage
    research = bodies s.tool_messages

    messages : List Sent
    messages = synthesis_messages lib prompts research q

    by_stream :
        (o : Streamed)
        → stream messages ≡ o
        → IsRun w stream bound (elim o as (λ x. LoreRunResult) [
          | cut e ↦ record {
            answer = concat ("⚠\u{fe0f} Failed to generate final answer: " ∷ e ∷ []);
            metrics = with_error e s.metrics;
            tool_messages = research;
            ok = false;
          }
          | streamed text usage ↦ record {
            answer = strip (or_default text);
            metrics = record_usage usage (chars_of_sent messages) (length_of text) s.metrics;
            tool_messages = research;
            ok = true;
          }
        ])
    by_stream (cut e) is_cut = (few, inr (e, refl, refl, inr (messages, is_cut)))
    by_stream (streamed text usage) is_text = (few, inl refl)

conclude_run-IsRun :
    (lib : Library) (w : World) (prompts : Prompts) (stream : List Sent → Streamed) (q : String)
    (bound : ℕ) (finish : Finish) (s : Rounds)
    → IsCaused w finish
    → s.metrics.rounds_executed ≤ bound
    → (r : LoreRunResult) × (conclude_run lib prompts stream q finish s ≡ some r)
      × IsRun w stream bound r
unfolding conclude_run
conclude_run-IsRun lib w prompts stream q bound stuck s cause few = absurd cause
conclude_run-IsRun lib w prompts stream q bound exhausted s cause few =
    (synthesise lib prompts stream q s, refl, synthesise-IsRun lib w prompts stream q bound s few)
conclude_run-IsRun lib w prompts stream q bound (answered text) s cause few =
    elim (Bool-cases (is_blank text)) [
      | inl e ↦ rw e (
        synthesise lib prompts stream q s,
        refl,
        synthesise-IsRun lib w prompts stream q bound s few,
      )
      | inr e ↦ rw e (_, refl, (few, inl refl))
    ]
conclude_run-IsRun lib w prompts stream q bound (raised e) s (round, is_failed) few =
    (_, refl, (few, inr (e, refl, refl, inl (round, is_failed))))

clamp_rounds_bound :
    (caps : Caps) (rounds : Option ℕ) → clamp_rounds caps rounds ≤ max 1 caps.hard_cap
unfolding clamp_rounds
clamp_rounds_bound caps none = ground arith
clamp_rounds_bound caps (some rounds) = ground arith

-- However the model, the tools and the streams answer, where the arguments of each tool call are a
-- JSON object or no JSON at all and a request raises nothing but a ProxyError: the opening run of a
-- question has a result, after at most as many rounds as the hard cap allows (one if it is 0), whatever number
-- was asked for. Where the result is not ok, its metrics hold the error, and a request raised it.
pub run_agent_loop-IsRun :
    (lib : Library) (w : World) (limits : Limits) (caps : Caps) (prompts : Prompts)
    (stream : List Sent → Streamed) (q : String) (max_rounds : Option ℕ)
    → (r : LoreRunResult) × (run_agent_loop lib w limits caps prompts stream q max_rounds ≡ some r)
      × IsRun w stream (max 1 caps.hard_cap) r
unfolding run_agent_loop
run_agent_loop-IsRun lib w limits caps prompts stream q max_rounds =
    let rounds = clamp_rounds caps max_rounds in
    let messages = opening_messages prompts q in
    let ran = run_tool_rounds lib w limits rounds messages [] in
    conclude_run-IsRun lib w prompts stream q (max 1 caps.hard_cap) ran.0 ran.1
      (run_tool_rounds-IsSound lib w limits rounds messages []).0
      (omega (
        arith,
        run_tool_rounds_bound lib w limits rounds messages [],
        clamp_rounds_bound caps max_rounds,
      ))
