-- ===== src/Rag/Lines.antt =====
-- Python's str methods on texts that are lists of code points, as rag/ uses them.
use local_ai_server.Prelude.{
  ==_refl, All, Bool, List, [], ap, arith, contains, false, if◌then◌else◌, is_empty, leb, number_Eq,
  refl, sym, text_Eq, true, ℕ, ◌&&◌, ◌++◌, ◌==◌, ◌||◌, ◌∙◌, ◌∷◌, ◌≡◌,
}
use local_ai_server.Prelude.Words.{is_space_code}
use local_ai_server.Rag.Chunking.{Text}
use mathlib.Core.List.{append_assoc}

-- The characters at which str.splitlines ends a line.
unfoldable pub is_break : ℕ → Bool
is_break n = leb 10 n && leb n 13 || leb 28 n && leb n 30 || n == 133 || n == 8232 || n == 8233

abbrev pub has_break : Text → Bool
has_break [] = false
has_break (c ∷ cs) = is_break c || has_break cs

abbrev pub put_first : ℕ → List Text → List Text
put_first c [] = (c ∷ []) ∷ []
put_first c (l ∷ ls) = (c ∷ l) ∷ ls

-- s.splitlines(), behind a carriage return if `after_cr`.
unfoldable pub lines_behind : Bool → Text → List Text
unfolding is_break
lines_behind after_cr [] = []
lines_behind after_cr (c ∷ cs) = elim (after_cr && c == 10) [
  | true ↦ lines_behind false cs
  | false ↦ elim (is_break c) [
    | true ↦ [] ∷ lines_behind (c == 13) cs
    | false ↦ put_first c (lines_behind false cs)
  ]
]

unfoldable pub splitlines : Text → List Text
unfolding lines_behind
splitlines s = lines_behind false s

-- s.split(c), c a single character
unfoldable pub split_on : ℕ → Text → List Text
split_on c [] = [] ∷ []
split_on c (x ∷ xs) = elim (x == c) [
  | true ↦ [] ∷ split_on c xs
  | false ↦ put_first x (split_on c xs)
]

-- sep.join(texts)
unfoldable pub join_with : Text → List Text → Text
join_with sep [] = []
join_with sep (l ∷ []) = l
join_with sep (l ∷ m ∷ ms) = l ++ (sep ++ join_with sep (m ∷ ms))

abbrev pub line_feed : Text
line_feed = 10 ∷ []

unfoldable pub strip_left : Text → Text
unfolding is_space_code
strip_left [] = []
strip_left (c ∷ cs) = elim (is_space_code c) [ true ↦ strip_left cs | false ↦ c ∷ cs ]

abbrev pub put_kept : ℕ → Text → Text
put_kept c [] = if is_space_code c then [] else c ∷ []
put_kept c (d ∷ ds) = c ∷ d ∷ ds

unfoldable pub strip_right : Text → Text
unfolding is_space_code
strip_right [] = []
strip_right (c ∷ cs) = put_kept c (strip_right cs)

-- s.strip()
unfoldable pub strip_text : Text → Text
unfolding strip_left strip_right
strip_text s = strip_right (strip_left s)

-- s.lstrip(c), c a single character
unfoldable pub strip_char : ℕ → Text → Text
strip_char c [] = []
strip_char c (x ∷ xs) = elim (x == c) [ true ↦ strip_char c xs | false ↦ x ∷ xs ]

has_break-first : (c : ℕ) (cs : Text) → has_break (c ∷ cs) ≡ false → is_break c ≡ false
has_break-first c cs h = ground arith

has_break-rest : (c : ℕ) (cs : Text) → has_break (c ∷ cs) ≡ false → has_break cs ≡ false
has_break-rest c cs h = ground arith

-- A line before a line break is a line, and the text goes on behind it.
pub lines_behind-line :
    (l rest : Text)
    → has_break l ≡ false
    → lines_behind false (l ++ 10 ∷ rest) ≡ l ∷ lines_behind false rest
unfolding lines_behind
lines_behind-line [] rest h = refl
lines_behind-line (c ∷ cs) rest h =
    rw (has_break-first c cs h, lines_behind)
      (ap (put_first c) (lines_behind-line cs rest (has_break-rest c cs h)))

pub lines_behind-last :
    (c : ℕ) (cs : Text) → has_break (c ∷ cs) ≡ false → lines_behind false (c ∷ cs) ≡ (c ∷ cs) ∷ []
unfolding lines_behind
lines_behind-last c [] h = rw (has_break-first c [] h, lines_behind) refl
lines_behind-last c (d ∷ ds) h =
    rw (has_break-first c (d ∷ ds) h, lines_behind)
      (ap (put_first c) (lines_behind-last d ds (has_break-rest c (d ∷ ds) h)))

-- The last of the lines, which a text loses at its end if it is empty.
abbrev pub last_line : List Text → Text
last_line [] = []
last_line (l ∷ []) = l
last_line (l ∷ m ∷ ms) = last_line (m ∷ ms)

pub splitlines-join :
    (ls : List Text)
    → All (λ l. has_break l ≡ false) ls
    → is_empty (last_line ls) ≡ false
    → splitlines (join_with line_feed ls) ≡ ls
unfolding splitlines join_with
splitlines-join [] h n = absurd (cc)
splitlines-join ([] ∷ []) h n = absurd (cc)
splitlines-join ((c ∷ cs) ∷ []) h n = lines_behind-last c cs h.0
splitlines-join (l ∷ m ∷ ms) h n =
    lines_behind-line l (join_with line_feed (m ∷ ms)) h.0
    ∙ ap (λ x. l ∷ x) (splitlines-join (m ∷ ms) h.1 n)

-- Joining joined lists is joining their concatenation, where none is empty.
abbrev pub concat_lines : List (List Text) → List Text
concat_lines [] = []
concat_lines (ls ∷ lss) = ls ++ concat_lines lss

pub join_with-append :
    (sep l : Text) (ls : List Text) (k : Text) (ks : List Text)
    → join_with sep ((l ∷ ls) ++ k ∷ ks) ≡ join_with sep (l ∷ ls) ++ (sep ++ join_with sep (k ∷ ks))
unfolding join_with
join_with-append sep l [] k ks = refl
join_with-append sep l (m ∷ ms) k ks =
    ap (λ x. l ++ (sep ++ x)) (join_with-append sep m ms k ks)
    ∙ sym (
        append_assoc l (sep ++ join_with sep (m ∷ ms)) (sep ++ join_with sep (k ∷ ks))
        ∙ ap (λ x. l ++ x)
            (append_assoc sep (join_with sep (m ∷ ms)) (sep ++ join_with sep (k ∷ ks))))

pub absent-first : (c x : ℕ) (xs : Text) → contains (x ∷ xs) c ≡ false → (x == c) ≡ false
unfolding contains
absent-first c x xs h = ground arith

absent-rest : (c x : ℕ) (xs : Text) → contains (x ∷ xs) c ≡ false → contains xs c ≡ false
unfolding contains
absent-rest c x xs h = ground arith

-- Splitting at a character undoes joining with it, where no text has it.
split_on-text :
    (c : ℕ) (l rest : Text)
    → contains l c ≡ false
    → split_on c (l ++ c ∷ rest) ≡ l ∷ split_on c rest
unfolding split_on contains
split_on-text c [] rest h = rw (==_refl c, split_on) refl
split_on-text c (x ∷ xs) rest h =
    rw (absent-first c x xs h, split_on)
      (ap (put_first x) (split_on-text c xs rest (absent-rest c x xs h)))

split_on-last : (c : ℕ) (l : Text) → contains l c ≡ false → split_on c l ≡ l ∷ []
unfolding split_on
split_on-last c [] h = refl
split_on-last c (x ∷ xs) h =
    rw (absent-first c x xs h, split_on)
      (ap (put_first x) (split_on-last c xs (absent-rest c x xs h)))

pub split_on-join :
    (c : ℕ) (l : Text) (ls : List Text)
    → All (λ k. contains k c ≡ false) (l ∷ ls)
    → split_on c (join_with (c ∷ []) (l ∷ ls)) ≡ l ∷ ls
unfolding join_with
split_on-join c l [] h = split_on-last c l h.0
split_on-join c l (m ∷ ms) h =
    split_on-text c l (join_with (c ∷ []) (m ∷ ms)) h.0 ∙ ap (λ x. l ∷ x) (split_on-join c m ms h.1)
