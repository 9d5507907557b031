-- ===== src/Bot/Formatters.antt =====
-- discord-bot/formatters.py: how a long answer is split into embeds. A text is the list of its
-- code points. Every embed has the same title and
-- colour. The regular expressions of strip_disclaimers are not modelled.
use local_ai_server.Prelude.{
  Bool, List, Option, [], drop, false, if◌then◌else◌, leb, length, ltb, none, number_Eq, some, suc,
  take, text_Eq, true, zero, ℕ, ◌&&◌, ◌+◌, ◌==◌, ◌∷◌,
}
use local_ai_server.Prelude.Words.{is_space_code}
use mathlib.Core.Option

abbrev pub Codes : Type 0
Codes = List ℕ

unfoldable pub lstrip_codes : Codes → Codes
unfolding is_space_code
lstrip_codes [] = []
lstrip_codes (c ∷ cs) = elim (is_space_code c) [ true ↦ lstrip_codes cs | false ↦ c ∷ cs ]

-- A code point before what is left of a text without its trailing space.
abbrev pub put_code : ℕ → Codes → Codes
put_code c [] = if is_space_code c then [] else c ∷ []
put_code c (d ∷ ds) = c ∷ d ∷ ds

unfoldable pub rstrip_codes : Codes → Codes
unfolding is_space_code
rstrip_codes [] = []
rstrip_codes (c ∷ cs) = put_code c (rstrip_codes cs)

unfoldable pub is_prefix : Codes → Codes → Bool
is_prefix [] s = true
is_prefix (c ∷ cs) [] = false
is_prefix (c ∷ cs) (d ∷ ds) = c == d && is_prefix cs ds

-- s.rfind(sub) for a `sub` that is not empty: the last place where it begins
unfoldable pub rfind : Codes → Codes → Option ℕ
unfolding is_prefix
rfind sub [] = none
rfind sub (c ∷ cs) = elim (rfind sub cs) [
  | some i ↦ some (i + 1)
  | none ↦ if is_prefix sub (c ∷ cs) then some 0 else none
]

abbrev pub newline : Codes
newline = 10 ∷ []

abbrev pub paragraph : Codes
paragraph = 10 ∷ 10 ∷ []

abbrev pub after_line : Option ℕ → ℕ → ℕ
after_line (some i) max_length = i + 1
after_line none max_length = max_length

abbrev pub after_paragraph : Option ℕ → ℕ → ℕ
after_paragraph (some i) line = i + 2
after_paragraph none line = line

-- find_split_boundary(buffer, max_length)
unfoldable pub find_split_boundary : Codes → ℕ → ℕ
unfolding rfind
find_split_boundary buffer max_length =
    let search_range = take max_length buffer in
    if leb (length buffer) max_length
    then length buffer
    else after_paragraph (rfind paragraph search_range)
        (after_line (rfind newline search_range) max_length)

-- split_idx, with its fallback
abbrev pub split_index : Codes → ℕ → ℕ
split_index remaining max_length =
    let i = find_split_boundary remaining max_length in if i == 0 then max_length else i

-- The loop of build_lore_embeds, `none` if the fuel does not suffice.
unfoldable pub split_chunks_of : ℕ → ℕ → Codes → Option (List Codes)
unfolding find_split_boundary rstrip_codes lstrip_codes
split_chunks_of fuel max_length [] = some []
split_chunks_of zero max_length (c ∷ cs) = none
split_chunks_of (suc fuel) max_length (c ∷ cs) =
    let i = split_index (c ∷ cs) max_length in
    let rest = split_chunks_of fuel max_length (lstrip_codes (drop i (c ∷ cs))) in
    if leb (length (c ∷ cs)) max_length
    then some ((c ∷ cs) ∷ [])
    else Option.map (λ chunks. rstrip_codes (take i (c ∷ cs)) ∷ chunks) rest

-- An embed: its description, and the page and the number of pages of its footer.
pub record Embed : Type 0 where
  pub description : Codes
  pub footer : Option (ℕ × ℕ)

abbrev pub footer_of : ℕ → ℕ → Option (ℕ × ℕ)
footer_of i n = if ltb 1 n then some (i, n) else none

unfoldable pub number_pages : ℕ → ℕ → List Codes → List Embed
number_pages i n [] = []
number_pages i n (chunk ∷ chunks) =
    record { description = chunk; footer = footer_of (i + 1) n } ∷ number_pages (i + 1) n chunks

abbrev pub pages : List Codes → List Embed
pages chunks = number_pages 0 (length chunks) chunks

-- build_lore_embeds(text), with the limit MAX_EMBED_DESCRIPTION_LENGTH; the text for no results
-- is given. The fuel is the length of the text.
unfoldable pub build_lore_embeds : Codes → ℕ → Codes → Option (List Embed)
unfolding split_chunks_of number_pages
build_lore_embeds no_results max_length [] =
    some (record { description = no_results; footer = none } ∷ [])
build_lore_embeds no_results max_length (c ∷ cs) =
    Option.map pages (split_chunks_of (suc (length cs)) max_length (c ∷ cs))
