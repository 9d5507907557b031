-- ===== src/Bot/Agent/Growth.antt =====
-- discord-bot/lore/agent.py: what a turn adds to the transcript of its thread.
use local_ai_server.Prelude.{
  Bool, Bool-cases, List, Option, String, [], ap, arith, false, inl, inr, is_empty, length, list_Eq,
  not, number_Eq, refl, subst, sym, text_Eq, ℕ, ◌++◌, ◌∙◌, ◌∷◌, ◌≡◌, ◌≤◌, ◌⊎◌,
}
use local_ai_server.Prelude.Words.{is_blank, join, strip}
use local_ai_server.Bot.Session.{
  LoreSession, Sent, Turn, answer, append_answer, append_question, append_research, assistant,
  build_messages, question, record_context, research, user,
}
use local_ai_server.Bot.Agent.Messages.{AgentMessage, Library}
use local_ai_server.Bot.Agent.Research.{render_research_blocks, texts_of_blocks}
use local_ai_server.Bot.Agent.Metrics.{AgentMetrics, record_usage}
use local_ai_server.Bot.Agent.Rounds.{
  Finish, Limits, World, answered, exhausted, failed, raised, stuck,
}
use local_ai_server.Bot.Agent.Turn.{
  Budget, Meeting, TurnOutcome, aborted, add_research, answer_nudge, close_turn, conclude_turn,
  crashed, done, extra_of, or_retry, reaches, researched, run_lore_turn, search_rounds, stripped,
  write_answer,
}
use mathlib.Core.List.{append_assoc, append-nil}
use local_ai_server.Bot.Agent.Condensing.{Rounds, bodies}
use local_ai_server.Bot.Agent.Run.{Caps, Streamed, clamp_rounds, cut, streamed}
use local_ai_server.Bot.Agent.Ends.{IsCaused, run_tool_rounds-IsSound}

-- The transcript gains these entries at its end, and the system prompt stays.
abbrev pub Adds : List Turn → LoreSession → LoreSession → Type 0
Adds ts s s' = (s'.transcript ≡ s.transcript ++ ts) × (s'.system_prompt ≡ s.system_prompt)

abbrev pub research_turns : List String → List Turn
research_turns [] = []
research_turns (text ∷ texts) =
    record { role = user; content = text; tag = research } ∷ research_turns texts

abbrev pub question_turn : String → Turn
question_turn q = record { role = user; content = q; tag = question }

-- The answer, if there is one.
abbrev pub answer_turns : TurnOutcome → List Turn
answer_turns (done text metrics searched) =
    record { role = assistant; content = text; tag = answer } ∷ []
answer_turns (aborted e) = []
answer_turns crashed = []

-- A request for a reply, or a stream, raised the error.
abbrev pub HasFailed : World → Meeting → String → Type 0
HasFailed w meeting e =
    ((round : ℕ) × (w.reply round ≡ failed e))
    ⊎ ((attempt : ℕ) × (messages : List Sent) × (meeting.stream attempt messages ≡ cut e))

-- An answer is not empty, a turn without one has failed, and none crashes.
abbrev pub IsFine : World → Meeting → TurnOutcome → Type 0
IsFine w meeting (done text metrics searched) = is_blank text ≡ false
IsFine w meeting (aborted e) = HasFailed w meeting e
IsFine w meeting crashed = ⊥

-- A finish of the rounds that is no crash.
abbrev pub IsOrderly : World → Finish → Type 0
IsOrderly w stuck = ⊥
IsOrderly w (answered text) = Unit
IsOrderly w exhausted = Unit
IsOrderly w (raised e) = (round : ℕ) × (w.reply round ≡ failed e)

stripped-cut : (o : Streamed) (e : String) → stripped o ≡ cut e → o ≡ cut e
stripped-cut (cut f) e h = h
stripped-cut (streamed text usage) e h = absurd (cc)

or_retry-cut : (a b : Streamed) (e : String) → or_retry a b ≡ cut e → (a ≡ cut e) ⊎ (b ≡ cut e)
or_retry-cut (cut f) b e h = inl h
or_retry-cut (streamed text usage) b e h = elim (Bool-cases (is_blank (strip text))) [
  | inl blank ↦ inr (stripped-cut b e (rw blank at h))
  | inr some_text ↦ absurd (cc (rw some_text at h))
]

add_research-Adds :
    (lib : Library) (ms : List AgentMessage) (start : ℕ) (s : LoreSession)
    → (r : List String) × (length r ≤ 1) × Adds (research_turns r) s (add_research lib ms start s)
unfolding add_research append_research length
add_research-Adds lib ms start s =
    let r = render_research_blocks lib ms s.seen_keys start in
    elim (Bool-cases (is_empty r.blocks)) [
      | inl e ↦ rw e ([], omega arith, (sym (append-nil s.transcript), refl))
      | inr e ↦ rw e (join "\n\n" (texts_of_blocks lib r.blocks) ∷ [], omega arith, (refl, refl))
    ]

-- A turn that is closed adds its answer to what the turn added before.
close_turn-Adds :
    (w : World) (meeting : Meeting) (text : String) (m : AgentMetrics) (searched : Bool)
    (ts : List Turn) (s s' : LoreSession)
    → Adds ts s s'
    → let end = close_turn meeting text m searched s' in
      Adds (ts ++ answer_turns end.0) s end.1 × IsFine w meeting end.0
unfolding close_turn append_answer record_context
close_turn-Adds w meeting text m searched ts s s' (adds, same) = elim (Bool-cases (is_blank text)) [
  | inl e ↦ rw e ((rw adds (append_assoc s.transcript ts _), same), refl)
  | inr e ↦ rw e ((rw adds (append_assoc s.transcript ts _), same), e)
]

write_answer-Adds :
    (w : World) (meeting : Meeting) (m : AgentMetrics) (searched : Bool) (ts : List Turn)
    (s s' : LoreSession)
    → Adds ts s s'
    → let end = write_answer meeting m searched s' in
      Adds (ts ++ answer_turns end.0) s end.1 × IsFine w meeting end.0
unfolding write_answer
write_answer-Adds w meeting m searched ts s s' h =
    let messages = build_messages (answer_nudge ∷ []) s' in
    by_stream (or_retry (meeting.stream 0 messages) (meeting.stream 1 messages)) (λ e raises.
      elim (or_retry-cut _ _ e raises) [
        | inl first ↦ inr (0, messages, first)
        | inr second ↦ inr (1, messages, second)
      ])
  where
    by_stream :
        (o : Streamed)
        → ((e : String) → o ≡ cut e → HasFailed w meeting e)
        → let end : TurnOutcome × LoreSession = elim o [
          | cut e ↦ (aborted e, s')
          | streamed text usage ↦ close_turn meeting text (record_usage usage 0 0 m) searched s'
        ] in
          Adds (ts ++ answer_turns end.0) s end.1 × IsFine w meeting end.0
    by_stream (cut e) why =
        ((h.0 ∙ ap (λ us. s.transcript ++ us) (sym (append-nil ts)), h.1), why e refl)
    by_stream (streamed text usage) why =
        close_turn-Adds w meeting text (record_usage usage 0 0 m) searched ts s s' h

-- What a turn adds: the question, at most one research block, and the answer if there is one.
abbrev pub IsTurn : World → Meeting → String → LoreSession → TurnOutcome × LoreSession → Type 0
IsTurn w meeting q s (outcome, s') =
    (r : List String) × (length r ≤ 1)
    × Adds (question_turn q ∷ research_turns r ++ answer_turns outcome) s s'
    × IsFine w meeting outcome

append_question-Adds :
    (now : ℕ) (q : String) (s : LoreSession)
    → Adds (question_turn q ∷ []) s (append_question now q s)
unfolding append_question
append_question-Adds now q s = (refl, refl)

Adds-trans :
    (ts us : List Turn) (s s' s'' : LoreSession)
    → Adds ts s s'
    → Adds us s' s''
    → Adds (ts ++ us) s s''
Adds-trans ts us s s' s'' h k =
    (k.0 ∙ ap (λ t. t ++ us) h.0 ∙ append_assoc s.transcript ts us, k.1 ∙ h.1)

researched-Adds :
    (lib : Library) (ms : List AgentMessage) (q : String) (s s' : LoreSession)
    → Adds (question_turn q ∷ []) s s'
    → (r : List String) × (length r ≤ 1)
      × Adds (question_turn q ∷ research_turns r) s (researched lib ms s')
unfolding length
researched-Adds lib ms q s s' h = elim (Bool-cases (is_empty ms)) [
  | inl e ↦ rw e ([], omega arith, h)
  | inr e ↦
      let (r, few, adds) = add_research-Adds lib ms s'.searches s' in
      rw e (
        r,
        few,
        Adds-trans (question_turn q ∷ []) (research_turns r) s s'
            (add_research lib ms s'.searches s') h adds,
      )
]

-- An answer that is not empty closes the turn.
pub conclude_turn-answered :
    (lib : Library) (meeting : Meeting) (text : String) (rounds : Rounds) (s : LoreSession)
    → is_blank text ≡ false
    → conclude_turn lib meeting (answered text) rounds s
      ≡ close_turn meeting text rounds.metrics
          (not (is_empty (bodies rounds.tool_messages)))
          (researched lib (bodies rounds.tool_messages) s)
unfolding conclude_turn
conclude_turn-answered lib meeting text rounds s e = rw e refl

conclude_turn-IsTurn :
    (lib : Library) (w : World) (meeting : Meeting) (finish : Finish) (rounds : Rounds) (q : String)
    (s s' : LoreSession)
    → Adds (question_turn q ∷ []) s s'
    → IsOrderly w finish
    → IsTurn w meeting q s (conclude_turn lib meeting finish rounds s')
unfolding conclude_turn length
conclude_turn-IsTurn lib w meeting stuck rounds q s s' h orderly = absurd orderly
conclude_turn-IsTurn lib w meeting (raised e) rounds q s s' h orderly =
    ([], omega arith, h, inl orderly)
conclude_turn-IsTurn lib w meeting exhausted rounds q s s' h orderly =
    let tools = bodies rounds.tool_messages in
    let (r, few, adds) = researched-Adds lib tools q s s' h in
    let (grown, fine) =
      write_answer-Adds w meeting rounds.metrics (not (is_empty tools))
        (question_turn q ∷ research_turns r) s (researched lib tools s') adds in
    (r, few, grown, fine)
conclude_turn-IsTurn lib w meeting (answered text) rounds q s s' h orderly =
    let tools = bodies rounds.tool_messages in
    let searched = not (is_empty tools) in
    let (r, few, adds) = researched-Adds lib tools q s s' h in
    let ts = question_turn q ∷ research_turns r in
    let s'' = researched lib tools s' in
    elim (Bool-cases (is_blank text)) [
      | inl e ↦
          let (grown, fine) = write_answer-Adds w meeting rounds.metrics searched ts s s'' adds in
          rw e (r, few, grown, fine)
      | inr e ↦
          let (grown, fine) =
            close_turn-Adds w meeting text rounds.metrics searched ts s s'' adds in
          subst (λ o. IsTurn w meeting q s o)
            (sym (conclude_turn-answered lib meeting text rounds s' e)) (r, few, grown, fine)
    ]

caused_IsOrderly : (w : World) (finish : Finish) → IsCaused w finish → IsOrderly w finish
caused_IsOrderly w stuck h = h
caused_IsOrderly w (answered text) h = tt
caused_IsOrderly w exhausted h = tt
caused_IsOrderly w (raised e) h = h

-- However the model, the tools and the streams answer, where the arguments of each tool call are a
-- JSON object or no JSON at all and a request raises nothing but a ProxyError: a turn only adds to
-- the transcript of its thread the question, then at most one research block, then an answer that
-- is not empty. It ends without an answer only with the error that a request or a stream raised,
-- and has no other way to end. The system prompt stays.
pub run_lore_turn-IsTurn :
    (lib : Library) (w : World) (limits : Limits) (caps : Caps) (budget : Budget)
    (meeting : Meeting) (max_rounds : Option ℕ) (q : String) (s : LoreSession)
    → IsTurn w meeting q s (run_lore_turn lib w limits caps budget meeting max_rounds q s)
unfolding run_lore_turn search_rounds
run_lore_turn-IsTurn lib w limits caps budget meeting max_rounds q s =
    let s' = append_question meeting.asked_at q s in
    let ran = search_rounds lib w limits caps budget max_rounds s' in
    conclude_turn-IsTurn lib w meeting ran.0 ran.1 q s s'
      (append_question-Adds meeting.asked_at q s)
      (elim (Bool-cases (reaches limits.hard_percent limits.context s')) [
        | inl e ↦ rw (e, search_rounds) tt
        | inr e ↦
            rw (e, search_rounds)
              (caused_IsOrderly w _ (
                (run_tool_rounds-IsSound lib w limits (clamp_rounds caps max_rounds)
                  (build_messages (extra_of budget limits s') s') s'.seen_keys).0))
      ])
