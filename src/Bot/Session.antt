-- ===== src/Bot/Session.antt =====
-- discord-bot/lore/session.py, `LoreSession`: one thread's transcript, its requests and counters.
-- Time stamps are seconds, `none` for one that cannot be read.
use local_ai_server.Prelude.Texts.{append_text}
use local_ai_server.Prelude.{
  Bool, List, Option, String, [], contains, false, if◌then◌else◌, length, ltb, max, none, number_Eq,
  some, take, text_Eq, true, ℕ, ◌++◌, ◌+◌, ◌-◌, ◌/◌, ◌==◌, ◌∷◌,
}
use Prim.Native.String.{count}

pub data Role : Type 0 where
  system : Role
  user : Role
  assistant : Role

pub data Tag : Type 0 where
  question : Tag
  research : Tag
  answer : Tag

-- An entry of the transcript; the tag must not reach the backend.
pub record Turn : Type 0 where
  pub role : Role
  pub content : String
  pub tag : Tag

-- What is sent.
pub record Sent : Type 0 where
  pub role : Role
  pub content : String

pub record LoreSession : Type 0 where
  pub thread_id : ℕ
  pub system_prompt : String
  pub original_question : String
  pub pinned_now : String
  pub offer_message_id : ℕ
  pub created_at : Option ℕ
  pub last_active_at : Option ℕ
  pub transcript : List Turn
  pub seen_keys : List String
  pub turns : ℕ
  pub searches : ℕ
  pub compactions : ℕ
  pub last_context_tokens : ℕ
  pub peak_context_tokens : ℕ

abbrev pub sent_turns : List Turn → List Sent
sent_turns [] = []
sent_turns (t ∷ ts) = record { role = t.role; content = t.content } ∷ sent_turns ts

-- build_messages(extra)
unfoldable pub build_messages : List Sent → LoreSession → List Sent
build_messages extra s =
    record { role = system; content = s.system_prompt } ∷ (sent_turns s.transcript ++ extra)

unfoldable pub append_question : ℕ → String → LoreSession → LoreSession
append_question now q s = record s {
  transcript = s.transcript ++ record { role = user; content = q; tag = question } ∷ [];
  last_active_at = some now;
}

unfoldable pub append_research : String → LoreSession → LoreSession
append_research block s = record s {
  transcript = s.transcript ++ record { role = user; content = block; tag = research } ∷ [];
  searches = s.searches + 1;
}

unfoldable pub append_answer : ℕ → String → LoreSession → LoreSession
append_answer now a s = record s {
  transcript = s.transcript ++ record { role = assistant; content = a; tag = answer } ∷ [];
  turns = s.turns + 1;
  last_active_at = some now;
}

unfoldable pub record_context : ℕ → LoreSession → LoreSession
record_context tokens s = record s {
  last_context_tokens = tokens;
  peak_context_tokens = max s.peak_context_tokens tokens;
}

abbrev pub chars_of_turns : List Turn → ℕ
chars_of_turns [] = 0
chars_of_turns (t ∷ ts) = count t.content + chars_of_turns ts

-- estimated_tokens
unfoldable pub estimated_tokens : LoreSession → ℕ
estimated_tokens s = (count s.system_prompt + chars_of_turns s.transcript) / 4

-- idle_seconds(now), `none` for an infinite time
unfoldable pub idle_seconds : ℕ → LoreSession → Option ℕ
idle_seconds now s = elim s.last_active_at [ none ↦ none | some t ↦ some (now - t) ]

-- `idle > ttl`
abbrev pub exceeds : Option ℕ → ℕ → Bool
exceeds none ttl = true
exceeds (some n) ttl = ltb ttl n

abbrev pub is_research : Turn → Bool
is_research t = elim t.tag [ question ↦ false | research ↦ true | answer ↦ false ]

-- The positions of the research blocks behind position `i`.
unfoldable pub research_from : ℕ → List Turn → List ℕ
research_from i [] = []
research_from i (t ∷ ts) =
    if is_research t then i ∷ research_from (i + 1) ts else research_from (i + 1) ts

unfoldable pub research_indices : LoreSession → List ℕ
unfolding research_from
research_indices s = research_from 0 s.transcript

-- _compact_session: the rewrite of the transcript around the victims, which are the oldest half
-- of the research blocks. The summary is the model's answer.
unfoldable pub rewrite_from : ℕ → ℕ → List ℕ → Turn → List Turn → List Turn
rewrite_from i first victims condensed [] = []
rewrite_from i first victims condensed (t ∷ ts) =
    let rest = rewrite_from (i + 1) first victims condensed ts in
    if i == first then condensed ∷ rest else if contains victims i then rest else t ∷ rest

unfoldable pub victims_of : List ℕ → List ℕ
victims_of indices = take (max 1 (length indices / 2)) indices

abbrev pub first_of_list : List ℕ → ℕ
first_of_list [] = 0
first_of_list (i ∷ is) = i

-- _condensed_content, of the earlier searches; `decimal` is Python's `str` on numbers.
unfoldable pub condensed_content : (ℕ → String) → ℕ → String → String
condensed_content decimal n summary = append_text "[Condensed research " (
    append_text (decimal n)
      (append_text "] earlier searches, summarised to save context\n" summary))

-- _compact_session, with the summary of the victims, `none` if the model gave none.
unfoldable pub compact_session : (ℕ → String) → Option String → LoreSession → Bool × LoreSession
unfolding research_indices victims_of rewrite_from contains condensed_content
compact_session decimal summary s =
    let indices = research_indices s in
    let victims = victims_of indices in
    if ltb (length indices) 2 then (false, s) else elim summary [
      | none ↦ (false, s)
      | some text ↦ (
        true,
        record s {
          compactions = s.compactions + 1;
          transcript =
              rewrite_from 0 (first_of_list victims) victims
                (record {
                  role = user;
                  content = condensed_content decimal (s.compactions + 1) text;
                  tag = research;
                })
                s.transcript;
        },
      )
    ]
