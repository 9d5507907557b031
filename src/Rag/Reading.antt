-- ===== src/Rag/Reading.antt =====
-- rag/retrieve.py, the loop of _parse_chunk_messages, at the lines of one rendered message.
use local_ai_server.Prelude.{
  ==→≡, All, Bool-cases, List, [], ap, arith, contains, false, inl, inr, is_empty, list_Eq, none,
  number_Eq, refl, some, subst, sym, text_Eq, true, ℕ, ◌++◌, ◌==◌, ◌∙◌, ◌∷◌, ◌≡◌,
}
use local_ai_server.Prelude.Texts.{codes}
use local_ai_server.Rag.Chunking.{Message, Text}
use local_ai_server.Rag.Known.{IsName, either}
use local_ai_server.Rag.Lines.{has_break, join_with, last_line, line_feed, put_first, split_on}
use local_ai_server.Rag.Rendering.{body_of}
use local_ai_server.Rag.Parsing.{
  Said, accept_match, before_colon, continue_last, from_colon, match_line, read_lines, starts,
}
use mathlib.Core.List.{append_assoc}

-- Splitting a text at a character, and joining it again.
pub split_on-cons : (c : ℕ) (s : Text) → (l : Text) × (ls : List Text) × (split_on c s ≡ l ∷ ls)
unfolding split_on
split_on-cons c [] = ([], [], refl)
split_on-cons c (x ∷ xs) = elim (Bool-cases (x == c)) [
  | inl e ↦ rw (e, split_on) ([], split_on c xs, refl)
  | inr e ↦ let (l, ls, h) = split_on-cons c xs in rw (e, split_on, h) (x ∷ l, ls, refl)
]

join-first :
    (c x : ℕ) (s : Text)
    → join_with (c ∷ []) (put_first x (split_on c s)) ≡ x ∷ join_with (c ∷ []) (split_on c s)
join-first c x s = let (l, ls, h) = split_on-cons c s in rw h (opened l ls)
  where
    opened :
        (l : Text) (ls : List Text)
        → join_with (c ∷ []) (put_first x (l ∷ ls)) ≡ x ∷ join_with (c ∷ []) (l ∷ ls)
    opened l [] = unfold join_with in refl
    opened l (m ∷ ms) = unfold join_with in refl

join-behind :
    (c : ℕ) (s : Text)
    → join_with (c ∷ []) ([] ∷ split_on c s) ≡ c ∷ join_with (c ∷ []) (split_on c s)
join-behind c s = let (l, ls, h) = split_on-cons c s in rw h (unfold join_with in refl)

pub join-split_on : (c : ℕ) (s : Text) → join_with (c ∷ []) (split_on c s) ≡ s
unfolding split_on
join-split_on c [] = unfold join_with in refl
join-split_on c (x ∷ xs) = elim (Bool-cases (x == c)) [
  | inl e ↦
      rw (e, split_on)
        (join-behind c xs
          ∙ ap (λ l. c ∷ l) (join-split_on c xs)
          ∙ ap (λ a. a ∷ xs) (sym (==→≡ x c e)))
  | inr e ↦ rw (e, split_on) (join-first c x xs ∙ ap (λ l. x ∷ l) (join-split_on c xs))
]

-- The lines of a rendered message: the first stands behind the name.
abbrev pub put_name : Text → List Text → List Text
put_name name [] = (name ++ codes ": ") ∷ []
put_name name (l ∷ ls) = (name ++ (codes ": " ++ l)) ∷ ls

abbrev pub rest_of : List Text → List Text
rest_of [] = []
rest_of (l ∷ ls) = ls

abbrev pub body_lines : Message → List Text
body_lines m = split_on 10 (body_of m)

abbrev pub said_by : Message → Said
said_by m = record { speaker = m.username; text = body_of m }

abbrev pub all_said : List Message → List Said
all_said [] = []
all_said (m ∷ ms) = said_by m ∷ all_said ms

before_colon-append :
    (name rest : Text) → contains name 58 ≡ false → before_colon (name ++ 58 ∷ rest) ≡ name
unfolding before_colon contains
before_colon-append [] rest h = refl
before_colon-append (c ∷ cs) rest h = elim (Bool-cases (c == 58)) [
  | inl e ↦ absurd (ground arith)
  | inr e ↦ rw (e, before_colon) (ap (λ l. c ∷ l) (before_colon-append cs rest (ground arith)))
]

pub from_colon-skip :
    (xs ys : Text) → contains xs 58 ≡ false → from_colon (xs ++ ys) ≡ from_colon ys
unfolding from_colon contains
from_colon-skip [] ys h = refl
from_colon-skip (c ∷ cs) ys h = elim (Bool-cases (c == 58)) [
  | inl e ↦ absurd (ground arith)
  | inr e ↦ rw (e, from_colon) (from_colon-skip cs ys (ground arith))
]

match_line-name :
    (name l : Text)
    → IsName name
    → match_line (name ++ (codes ": " ++ l)) ≡ some (record { speaker = name; text = l })
unfolding match_line
match_line-name [] l h = absurd (cc)
match_line-name (c ∷ cs) l (_, _, no_colon, _, _) =
    rw
      (
        before_colon-append (c ∷ cs) (32 ∷ l) no_colon,
        from_colon-skip (c ∷ cs) (codes ": " ++ l) no_colon,
      )
      refl

-- A text with lines added to it.
abbrev with_lines : Text → List Text → Text
with_lines t [] = t
with_lines t (l ∷ ls) = with_lines (t ++ 10 ∷ l) ls

with_lines-append : (s t : Text) (ls : List Text) → with_lines (s ++ t) ls ≡ s ++ with_lines t ls
with_lines-append s t [] = refl
with_lines-append s t (l ∷ ls) =
    ap (λ x. with_lines x ls) (append_assoc s t (10 ∷ l)) ∙ with_lines-append s (t ++ 10 ∷ l) ls

with_lines-join : (l : Text) (ls : List Text) → with_lines l ls ≡ join_with line_feed (l ∷ ls)
unfolding join_with
with_lines-join l [] = refl
with_lines-join l (m ∷ ms) =
    with_lines-append l (10 ∷ m) ms
    ∙ ap (λ x. l ++ x) (with_lines-append (10 ∷ []) m ms ∙ ap (λ x. 10 ∷ x) (with_lines-join m ms))

module _ (casefold : Text → Text) where
  pub starts-name :
      (known : List Text) (name l : Text)
      → IsName name
      → contains known (casefold name) ≡ true
      → starts casefold known (name ++ (codes ": " ++ l))
        ≡ some (record { speaker = name; text = l })
  unfolding starts accept_match
  starts-name known name l h k =
      rw (match_line-name name l h, h.4)
        (rw (either (is_empty known) (contains known (casefold name)) k) refl)

  continue_last-snoc :
      (line : Text) (messages : List Said) (m : Said)
      → continue_last line (messages ++ m ∷ [])
        ≡ messages ++ record { speaker = m.speaker; text = m.text ++ 10 ∷ line } ∷ []
  unfolding continue_last
  continue_last-snoc line [] m = refl
  continue_last-snoc line (n ∷ []) m = refl
  continue_last-snoc line (n ∷ o ∷ messages) m =
      ap (λ l. n ∷ l) (continue_last-snoc line (o ∷ messages) m)

  -- Lines that start nothing go to the last message.
  read_lines-rest :
      (known : List Text) (messages : List Said) (name text : Text) (ls rest : List Text)
      → All (λ l. starts casefold known l ≡ none) ls
      → read_lines casefold known
          (messages ++ record { speaker = name; text = text } ∷ [])
          (ls ++ rest)
        ≡ read_lines casefold known
            (messages ++ record { speaker = name; text = with_lines text ls } ∷ [])
            rest
  unfolding read_lines
  read_lines-rest known messages name text [] rest h = refl
  read_lines-rest known messages name text (l ∷ ls) rest h =
      rw (h.0, read_lines)
        (ap (λ x. read_lines casefold known x (ls ++ rest))
            (continue_last-snoc l messages (record { speaker = name; text = text }))
          ∙ read_lines-rest known messages name (text ++ 10 ∷ l) ls rest h.1)

  -- A text whose lines behind the first do not look like a message of a known speaker.
  abbrev pub IsBody : List Text → Message → Type 0
  IsBody known m =
      All (λ l. has_break l ≡ false) (body_lines m)
      × All (λ l. starts casefold known l ≡ none) (rest_of (body_lines m))
      × (is_empty (last_line (put_name m.username (body_lines m))) ≡ false)

  pub read_lines-message :
      (known : List Text) (messages : List Said) (m : Message) (rest : List Text)
      → IsName m.username
      → contains known (casefold m.username) ≡ true
      → All (λ l. starts casefold known l ≡ none) (rest_of (body_lines m))
      → read_lines casefold known messages (put_name m.username (body_lines m) ++ rest)
        ≡ read_lines casefold known (messages ++ said_by m ∷ []) rest
  read_lines-message known messages m rest name k h =
      let (l, ls, e) = split_on-cons 10 (body_of m) in
      rw e (
        unfold read_lines in
        rw (starts-name known m.username l name k, read_lines)
          (read_lines-rest known messages m.username l ls rest
              (subst (λ x. All (λ l. starts casefold known l ≡ none) (rest_of x)) e h)
            ∙ ap
                (λ t.
                  read_lines casefold known
                    (messages ++ record { speaker = m.username; text = t } ∷ []) rest)
                (with_lines-join l ls
                  ∙ ap (join_with line_feed) (sym e)
                  ∙ join-split_on 10 (body_of m))))
