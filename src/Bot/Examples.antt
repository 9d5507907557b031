-- ===== src/Bot/Examples.antt =====
-- Runs of the bot's rate limiter and lore sessions, and the theorems at them.
use local_ai_server.Prelude.{
  List, String, [], arith, false, if◌then◌else◌, length, none, number_Eq, refl, some, text_Eq, true,
  ℕ, ◌++◌, ◌==◌, ◌∷◌, ◌≡◌, ◌≤◌,
}
use local_ai_server.Prelude.Dict.{lookup}
use local_ai_server.Bot.Registry.{
  RegistryCall, absent, call_all, get_model, load_registry, registering, setting_status,
}
use local_ai_server.Bot.RateLimiter.{Call, answers}
use local_ai_server.Bot.Window.{Forward, answers-eq-spec, fresh, spec_answers}
use local_ai_server.Bot.Quota.{last_time}
use local_ai_server.Bot.Session.{
  LoreSession, Role, Sent, assistant, compact_session, sent_turns, user,
}
use local_ai_server.Bot.Compaction.{
  Entry, add_entries, asked, compact_session_keeps, found, replied, spoken,
}
use local_ai_server.Bot.SessionStore.{LoreSessionStore, sweep_offers}
use local_ai_server.Bot.Offers.{IsClaimed, IsDistinct, claim-IsClaimed}
use local_ai_server.Prelude.Texts.{codes}
use mathlib.Core.Option
use local_ai_server.Bot.Conversation.{get_history, newest_of}
use local_ai_server.Bot.Recent.{Act, act_all, act_all-newest_of, exchange, forget_persona, say_all}
use local_ai_server.Bot.Formatters.{Codes, Embed, build_lore_embeds}
use local_ai_server.Bot.Splitting.{IsSplit, build_lore_embeds-IsSplit, descriptions}

abbrev call : ℕ → ℕ → Call
call time who = record { now = time; user = who }

-- Two requests in 60 ticks are allowed.
abbrev calls : List Call
calls = call 1 5 ∷ call 2 5 ∷ call 3 5 ∷ call 3 6 ∷ call 61 5 ∷ call 61 5 ∷ []

calls-answers : answers calls (fresh 2 60) ≡ true ∷ true ∷ false ∷ true ∷ true ∷ false ∷ []
unfolding answers
calls-answers = refl

calls-Forward : Forward 0 calls
calls-Forward =
    (omega arith, (omega arith, (omega arith, (omega arith, (omega arith, (omega arith, tt))))))

answers-eq-spec_example : answers calls (fresh 2 60) ≡ spec_answers 2 60 calls (λ u. [])
answers-eq-spec_example = answers-eq-spec 2 60 calls calls-Forward

calls_end : last_time 0 calls ≤ 61
calls_end = omega arith

abbrev new_session : LoreSession
new_session = record {
  thread_id = 0;
  system_prompt = "You keep the lore.";
  original_question = "who built the tower?";
  pinned_now = "2026-01-01 00:00 UTC";
  offer_message_id = 0;
  created_at = some 10;
  last_active_at = some 10;
  transcript = [];
  seen_keys = [];
  turns = 0;
  searches = 0;
  compactions = 0;
  last_context_tokens = 0;
  peak_context_tokens = 0;
}

abbrev first_turn : List Entry
first_turn =
    asked 20 "who built the tower?"
    ∷ found "block one"
    ∷ found "block two"
    ∷ found "block three"
    ∷ replied 30 "ann did"
    ∷ []

abbrev session : LoreSession
session = add_entries first_turn new_session

-- One way to write a number.
abbrev one_digit : ℕ → String
one_digit n = if n == 1 then "1" else "n"

abbrev summarised : String
summarised = "[Condensed research 1] earlier searches, summarised to save context\nsummary"

-- The oldest of three blocks is condensed.
session_compacted :
    sent_turns (compact_session one_digit (some "summary") session).1.transcript
    ≡ record { role = user; content = "who built the tower?" }
      ∷ record { role = user; content = summarised }
      ∷ record { role = user; content = "block two" }
      ∷ record { role = user; content = "block three" }
      ∷ record { role = assistant; content = "ann did" }
      ∷ []
unfolding compact_session add_entries
session_compacted = refl

compact_session_keeps_example :
    (spoken (compact_session one_digit (some "summary") session).1.transcript
      ≡ spoken session.transcript)
    × (length (compact_session one_digit (some "summary") session).1.transcript
        ≤ length session.transcript)
    × ((compact_session one_digit (some "summary") session).0 ≡ false
        → (compact_session one_digit (some "summary") session).1 ≡ session)
compact_session_keeps_example = compact_session_keeps one_digit (some "summary") session

-- Two offers, of which the first is stale at 500.
abbrev offered : LoreSessionStore
offered = record {
  sessions = [];
  pending = (7, new_session) ∷ (8, record new_session { created_at = some 400 }) ∷ [];
}

claim-IsClaimed_example : IsClaimed 7 70 offered
claim-IsClaimed_example = claim-IsClaimed 7 70 offered

offered-IsDistinct : IsDistinct offered.pending
unfolding lookup
offered-IsDistinct = (refl, (refl, tt))

offered_swept : (sweep_offers 500 300 offered).0 ≡ 1
unfolding sweep_offers
offered_swept = refl

-- A split at a paragraph, one at the limit, and the rest.
abbrev long_answer : Codes
long_answer = codes "ab\n\ncd efghijk"

long_answer_parts :
    Option.map descriptions (build_lore_embeds (codes "none") 8 long_answer)
    ≡ some (codes "ab" ∷ codes "cd efghi" ∷ codes "jk" ∷ [])
unfolding build_lore_embeds
long_answer_parts = refl

build_lore_embeds-IsSplit_example :
    (embeds : List Embed) × (build_lore_embeds (codes "none") 8 long_answer ≡ some embeds)
    × IsSplit 8 long_answer (descriptions embeds)
build_lore_embeds-IsSplit_example =
    build_lore_embeds-IsSplit (codes "none") 8 97 (codes "b\n\ncd efghijk") (omega arith)

-- Two exchanges in a window of three messages, and one of another persona.
abbrev acts : List Act
acts =
    exchange (1, "ann") "hi" "hello"
    ∷ exchange (1, "bob") "you there?" "no"
    ∷ exchange (1, "ann") "how are you?" "fine"
    ∷ forget_persona "bob"
    ∷ []

abbrev says : Role → String → Sent
says role text = record { role = role; content = text }

acts_window :
    (get_history (1, "ann") (act_all 3 acts [])).0
    ≡ says assistant "hello" ∷ says user "how are you?" ∷ says assistant "fine" ∷ []
unfolding act_all get_history
acts_window = refl

act_all-newest_of_example :
    (get_history (1, "ann") (act_all 3 acts [])).0 ≡ newest_of 3 (say_all (1, "ann") acts [])
act_all-newest_of_example = act_all-newest_of 3 (1, "ann") acts

-- A thread is registered, and its model is gone once its status says so.
abbrev thread_calls : List RegistryCall
thread_calls = registering "now" "7" "llama" "talk" "lore" ∷ setting_status "8" "deleted" ∷ []

registered :
    get_model "7" (load_registry (call_all thread_calls (load_registry absent)).file) ≡ some "llama"
unfolding get_model load_registry call_all
registered = refl

deleted :
    get_model "7"
      (call_all (thread_calls ++ setting_status "7" "deleted" ∷ []) (load_registry absent))
    ≡ none
unfolding get_model load_registry call_all
deleted = refl
