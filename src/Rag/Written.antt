-- ===== src/Rag/Written.antt =====
-- rag/ingest.py, format_chunk_text: the lines of a rendered chunk.
use local_ai_server.Prelude.{
  All, List, [], ap, arith, contains, false, list_Eq, none, number_Eq, refl, sym, text_Eq, ℕ, ◌++◌,
  ◌||◌, ◌∙◌, ◌∷◌, ◌≡◌,
}
use local_ai_server.Prelude.Texts.{codes}
use local_ai_server.Rag.Chunking.{Message, Text}
use local_ai_server.Rag.Lines.{
  absent-first, concat_lines, has_break, is_break, join_with, join_with-append, last_line,
  line_feed,
}
use local_ai_server.Rag.Rendering.{body_of, header_of, line_of, lines_of_messages}
use local_ai_server.Rag.Parsing.{accept_match, before_colon, from_colon, groups, match_line, starts}
use local_ai_server.Rag.Reading.{
  body_lines, from_colon-skip, join-split_on, put_name, split_on-cons,
}
use mathlib.Core.List.{append-nil, append_assoc}

-- The messages of a chunk as lines.
abbrev pub written : List Message → List (List Text)
written [] = []
written (m ∷ ms) = put_name m.username (body_lines m) ∷ written ms

join-put_name : (m : Message) → join_with line_feed (put_name m.username (body_lines m)) ≡ line_of m
join-put_name m =
    let (l, ls, e) = split_on-cons 10 (body_of m) in
    rw e (opened (m.username) l ls)
    ∙ ap (λ x. m.username ++ (codes ": " ++ x))
        (ap (join_with line_feed) (sym e) ∙ join-split_on 10 (body_of m))
    ∙ (unfold line_of in refl)
  where
    opened :
        (name l : Text) (ls : List Text)
        → join_with line_feed ((name ++ (codes ": " ++ l)) ∷ ls)
          ≡ name ++ (codes ": " ++ join_with line_feed (l ∷ ls))
    opened name l [] = unfold join_with in refl
    opened name l (k ∷ ks) =
        unfold join_with in
        append_assoc name (codes ": " ++ l) (line_feed ++ join_with line_feed (k ∷ ks))

join-nested :
    (h k : Text) (ks rest : List Text)
    → join_with line_feed (h ∷ join_with line_feed (k ∷ ks) ∷ rest)
      ≡ join_with line_feed (h ∷ ((k ∷ ks) ++ rest))
unfolding join_with
join-nested h k ks [] = ap (λ x. join_with line_feed (h ∷ x)) (sym (append-nil (k ∷ ks)))
join-nested h k ks (r ∷ rest) =
    ap (λ x. h ++ (line_feed ++ x)) (sym (join_with-append line_feed k ks r rest))

join-step :
    (h k : Text) (ks : List Text) (l : Text) (ls : List Text)
    → join_with line_feed (k ∷ ks) ≡ join_with line_feed (l ∷ ls)
    → join_with line_feed (h ∷ k ∷ ks) ≡ join_with line_feed (h ∷ l ∷ ls)
unfolding join_with
join-step h k ks l ls e = ap (λ x. h ++ (line_feed ++ x)) e

pub join-written :
    (h : Text) (ms : List Message)
    → join_with line_feed (h ∷ lines_of_messages ms)
      ≡ join_with line_feed (h ∷ concat_lines (written ms))
unfolding lines_of_messages
join-written h [] = refl
join-written h (m ∷ ms) =
    join-step h _ _ _ _ (join-written (line_of m) ms)
    ∙ ap (λ x. join_with line_feed (h ∷ x ∷ concat_lines (written ms))) (sym (join-put_name m))
    ∙ (let (l, ls, e) = split_on-cons 10 (body_of m) in
        rw e (join-nested h (m.username ++ (codes ": " ++ l)) ls (concat_lines (written ms))))

has_break-append : (xs ys : Text) → has_break (xs ++ ys) ≡ (has_break xs || has_break ys)
has_break-append [] ys = refl
has_break-append (c ∷ cs) ys = ground (arith, has_break-append cs ys)

unbroken :
    (xs ys : Text) → has_break xs ≡ false → has_break ys ≡ false → has_break (xs ++ ys) ≡ false
unbroken xs ys h k = has_break-append xs ys ∙ ground arith

pub All-put_name :
    (name : Text) (ls : List Text)
    → has_break name ≡ false
    → All (λ l. has_break l ≡ false) ls
    → All (λ l. has_break l ≡ false) (put_name name ls)
All-put_name name [] h all = (unbroken name (codes ": ") h (unfold is_break in refl), tt)
All-put_name name (l ∷ ls) h all =
    (unbroken name (codes ": " ++ l) h (unfold is_break in all.0), all.1)

pub last_line-append :
    (ls : List Text) (k : Text) (ks : List Text) → last_line (ls ++ k ∷ ks) ≡ last_line (k ∷ ks)
last_line-append [] k ks = refl
last_line-append (l ∷ []) k ks = refl
last_line-append (l ∷ m ∷ ms) k ks = last_line-append (m ∷ ms) k ks

groups-none : (user s : Text) → contains s 32 ≡ false → groups user (58 ∷ (s ++ codes "]")) ≡ none
groups-none [] s h = refl
groups-none (c ∷ cs) [] h = refl
groups-none (c ∷ cs) (x ∷ xs) h = rw (absent-first 32 x xs h) refl

module _ (hour minute : ℕ → Text) where
  -- A date that the format can carry, and a channel's name: one line, no colon before the minute.
  abbrev pub IsHeader : Message → Type 0
  IsHeader m =
      (has_break m.channel_name ≡ false)
      × (contains m.channel_name 58 ≡ false)
      × (has_break (hour m.timestamp) ≡ false)
      × (contains (hour m.timestamp) 58 ≡ false)
      × (has_break (minute m.timestamp) ≡ false)
      × (contains (minute m.timestamp) 32 ≡ false)

  from_colon-header :
      (m : Message)
      → IsHeader m
      → from_colon (header_of hour minute m) ≡ 58 ∷ (minute m.timestamp ++ codes "]")
  unfolding header_of from_colon
  from_colon-header m h =
      from_colon-skip m.channel_name
        (codes " | " ++ (hour m.timestamp ++ 58 ∷ (minute m.timestamp ++ codes "]"))) h.1
      ∙ from_colon-skip (hour m.timestamp) (58 ∷ (minute m.timestamp ++ codes "]")) h.3

  pub header-starts_nothing :
      (casefold : Text → Text) (known : List Text) (m : Message)
      → IsHeader m
      → starts casefold known (header_of hour minute m) ≡ none
  unfolding starts accept_match match_line
  header-starts_nothing casefold known m h =
      rw
        (
          from_colon-header m h,
          groups-none (before_colon (header_of hour minute m)) (minute m.timestamp) h.5,
        )
        refl

  pub has_break-header : (m : Message) → IsHeader m → has_break (header_of hour minute m) ≡ false
  unfolding header_of is_break
  has_break-header m h =
      unbroken m.channel_name
        (codes " | " ++ (hour m.timestamp ++ 58 ∷ (minute m.timestamp ++ codes "]"))) h.0
        (unbroken (hour m.timestamp) (58 ∷ (minute m.timestamp ++ codes "]")) h.2
          (unbroken (minute m.timestamp) (codes "]") h.4 refl))
