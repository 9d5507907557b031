-- ===== src/Bot/Compaction.antt =====
-- discord-bot/lore/session.py and compaction.py: what a thread's history keeps.
use local_ai_server.Prelude.{
  ==_refl, ==→≡, Bool-cases, List, Option, String, [], ap, arith, contains, false, inl, inr,
  keep_if, length, ltb, max, none, not, number_Eq, refl, some, subst, suc, sym, take, text_Eq, true,
  zero, ℕ, ◌++◌, ◌+◌, ◌-◌, ◌/◌, ◌==◌, ◌∷◌, ◌≡◌, ◌≤◌,
}
use local_ai_server.Bot.Session.{
  LoreSession, Sent, Turn, append_answer, append_question, append_research, assistant,
  build_messages, compact_session, condensed_content, first_of_list, is_research, research,
  research_from, research_indices, rewrite_from, sent_turns, user, victims_of,
}
use mathlib.Core.List.{append_assoc, append-nil}

-- What a turn of a thread does to its session.
pub data Entry : Type 0 where
  asked : ℕ → String → Entry
  found : String → Entry
  replied : ℕ → String → Entry

unfoldable pub add_entry : Entry → LoreSession → LoreSession
unfolding append_question append_research append_answer
add_entry (asked now q) s = append_question now q s
add_entry (found block) s = append_research block s
add_entry (replied now a) s = append_answer now a s

unfoldable pub add_entries : List Entry → LoreSession → LoreSession
unfolding add_entry
add_entries [] s = s
add_entries (e ∷ es) s = add_entries es (add_entry e s)

-- What an entry adds to the request.
unfoldable pub sent_by : List Entry → List Sent
sent_by [] = []
sent_by (asked now q ∷ es) = record { role = user; content = q } ∷ sent_by es
sent_by (found block ∷ es) = record { role = user; content = block } ∷ sent_by es
sent_by (replied now a ∷ es) = record { role = assistant; content = a } ∷ sent_by es

sent_turns-append : (xs ys : List Turn) → sent_turns (xs ++ ys) ≡ sent_turns xs ++ sent_turns ys
sent_turns-append [] ys = refl
sent_turns-append (x ∷ xs) ys =
    ap (λ l. record { role = x.role; content = x.content } ∷ l) (sent_turns-append xs ys)

sent_add_entries :
    (es : List Entry) (s : LoreSession)
    → sent_turns (add_entries es s).transcript ≡ sent_turns s.transcript ++ sent_by es
unfolding add_entries sent_by
sent_add_entries [] s = sym (append-nil (sent_turns s.transcript))
sent_add_entries (asked now q ∷ es) s =
    simp (sent_add_entries es (add_entry (asked now q) s), sent_turns-append, append_assoc)
sent_add_entries (found block ∷ es) s =
    simp (sent_add_entries es (add_entry (found block) s), sent_turns-append, append_assoc)
sent_add_entries (replied now a ∷ es) s =
    simp (sent_add_entries es (add_entry (replied now a) s), sent_turns-append, append_assoc)

prompt_add_entries :
    (es : List Entry) (s : LoreSession) → (add_entries es s).system_prompt ≡ s.system_prompt
unfolding add_entries
prompt_add_entries [] s = refl
prompt_add_entries (asked now q ∷ es) s = prompt_add_entries es (add_entry (asked now q) s)
prompt_add_entries (found block ∷ es) s = prompt_add_entries es (add_entry (found block) s)
prompt_add_entries (replied now a ∷ es) s = prompt_add_entries es (add_entry (replied now a) s)

-- After any questions, research blocks and answers the request is the one before with new
-- messages behind it: nothing that was sent is changed or moved.
pub build_messages-add_entries :
    (es : List Entry) (s : LoreSession)
    → build_messages [] (add_entries es s) ≡ build_messages [] s ++ sent_by es
unfolding build_messages
build_messages-add_entries es s = simp (prompt_add_entries es s, sent_add_entries es s, append-nil)

-- Compaction.

research_from-le : (i j : ℕ) (ts : List Turn) → contains (research_from i ts) j ≡ true → i ≤ j
unfolding research_from contains
research_from-le i j [] h = absurd (cc)
research_from-le i j (t ∷ ts) h = ground (arith, research_from-le (i + 1) j ts)

-- Of the positions from `i` on, those in the list are research blocks.
abbrev OnResearch : ℕ → List ℕ → List Turn → Type 0
OnResearch i victims ts =
    (j : ℕ) → i ≤ j → contains victims j ≡ true → contains (research_from i ts) j ≡ true

OnResearch-tail :
    (i : ℕ) (victims : List ℕ) (t : Turn) (ts : List Turn)
    → OnResearch i victims (t ∷ ts)
    → OnResearch (i + 1) victims ts
unfolding research_from contains
OnResearch-tail i victims t ts h j le m = ground (arith, h j)

OnResearch-head :
    (i : ℕ) (victims : List ℕ) (t : Turn) (ts : List Turn)
    → OnResearch i victims (t ∷ ts)
    → contains victims i ≡ true
    → is_research t ≡ true
unfolding research_from contains
OnResearch-head i victims t ts h m = ground (arith, h i, research_from-le (i + 1) i ts)

-- The questions and the answers.
unfoldable pub spoken : List Turn → List Turn
unfolding keep_if
spoken ts = keep_if (λ t. not (is_research t)) ts

spoken-rewrite_from :
    (i first : ℕ) (victims : List ℕ) (condensed : Turn) (ts : List Turn)
    → is_research condensed ≡ true
    → contains victims first ≡ true
    → OnResearch i victims ts
    → spoken (rewrite_from i first victims condensed ts) ≡ spoken ts
unfolding spoken rewrite_from
spoken-rewrite_from i first victims condensed [] r m h = refl
spoken-rewrite_from i first victims condensed (t ∷ ts) r m h =
    let ih =
      spoken-rewrite_from (i + 1) first victims condensed ts r m
        (OnResearch-tail i victims t ts h) in
    elim (Bool-cases (i == first)) [
      | inl e ↦
          let victim : contains victims i ≡ true = rw (==→≡ i first e) m in
          let gone = OnResearch-head i victims t ts h victim in ground (arith, ih)
      | inr e ↦ elim (Bool-cases (contains victims i)) [
        | inl v ↦ let gone = OnResearch-head i victims t ts h v in ground (arith, ih)
        | inr v ↦ ground (arith, ih)
      ]
    ]

length-rewrite_from-le :
    (i first : ℕ) (victims : List ℕ) (condensed : Turn) (ts : List Turn)
    → length (rewrite_from i first victims condensed ts) ≤ length ts
unfolding rewrite_from
length-rewrite_from-le i first victims condensed [] = omega arith
length-rewrite_from-le i first victims condensed (t ∷ ts) =
    ground (arith, length-rewrite_from-le (i + 1) first victims condensed ts)

contains-take : (n j : ℕ) (xs : List ℕ) → contains (take n xs) j ≡ true → contains xs j ≡ true
unfolding contains
contains-take zero j xs h = absurd (cc)
contains-take (suc n) j [] h = h
contains-take (suc n) j (x ∷ xs) h = ground (arith, contains-take n j xs)

contains-first :
    (n : ℕ) (x : ℕ) (xs : List ℕ)
    → contains (take (suc n) (x ∷ xs)) (first_of_list (take (suc n) (x ∷ xs))) ≡ true
unfolding contains
contains-first n x xs = ground (arith, ==_refl x)

first_victim :
    (indices : List ℕ)
    → 2 ≤ length indices
    → contains (victims_of indices) (first_of_list (victims_of indices)) ≡ true
unfolding victims_of
first_victim [] h = absurd (omega arith)
first_victim (x ∷ xs) h =
    subst (λ n. contains (take n (x ∷ xs)) (first_of_list (take n (x ∷ xs))) ≡ true)
      {x = suc (max 1 (length (x ∷ xs) / 2) - 1)} (omega arith)
      (contains-first (max 1 (length (x ∷ xs) / 2) - 1) x xs)

victims-OnResearch : (s : LoreSession) → OnResearch 0 (victims_of (research_indices s)) s.transcript
unfolding victims_of research_indices
victims-OnResearch s j le h =
    let indices = research_from 0 s.transcript in
    contains-take (max 1 (length indices / 2)) j indices h

-- Compaction keeps every question and answer in its order, whatever the summary, adds no entry
-- to the transcript, and leaves the session as it was if it reports that it did nothing.
pub compact_session_keeps :
    (decimal : ℕ → String) (summary : Option String) (s : LoreSession)
    → (spoken (compact_session decimal summary s).1.transcript ≡ spoken s.transcript)
      × (length (compact_session decimal summary s).1.transcript ≤ length s.transcript)
      × ((compact_session decimal summary s).0 ≡ false → (compact_session decimal summary s).1 ≡ s)
unfolding compact_session
compact_session_keeps decimal none s = elim (Bool-cases (ltb (length (research_indices s)) 2)) [
  | inl e ↦ rw e (refl, omega arith, λ h. refl)
  | inr e ↦ rw e (refl, omega arith, λ h. refl)
]
compact_session_keeps decimal (some text) s =
    elim (Bool-cases (ltb (length (research_indices s)) 2)) [
      | inl e ↦ rw e (refl, omega arith, λ h. refl)
      | inr e ↦
          let victims = victims_of (research_indices s) in
          let condensed : Turn = record {
            role = user;
            content = condensed_content decimal (s.compactions + 1) text;
            tag = research;
          } in
          rw e (
            spoken-rewrite_from 0 (first_of_list victims) victims condensed s.transcript refl
                (first_victim (research_indices s) (ground arith)) (victims-OnResearch s),
            length-rewrite_from-le 0 (first_of_list victims) victims condensed s.transcript,
            λ h. absurd (cc),
          )
    ]
