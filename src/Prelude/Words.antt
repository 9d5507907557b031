-- ===== src/Prelude/Words.antt =====
-- Python's str methods that the program uses on whole texts.
use mathlib.Core.List.{List, [], ◌∷◌}
use mathlib.Core.Bool.{Bool, true, false, ◌&&◌, ◌||◌}
use Prim.Native.Nat.{ℕ, zero, suc, ◌-◌}
use Prim.Native.Char.{Char, code}
use Prim.Native.String.{String, count}
use Prim.Native.String.{◌++◌ as append}
use text.Mathlib.Text.{starts_with as begins}
use local_ai_server.Prelude.Tests.{if◌then◌else◌, leb, number_Eq, text_Eq, ◌==◌}

-- c.isspace(), by the code point
unfoldable pub is_space_code : ℕ → Bool
is_space_code n =
    n == 32
    || leb 9 n && leb n 13
    || leb 28 n && leb n 31
    || n == 133
    || n == 160
    || n == 5760
    || leb 8192 n && leb n 8202
    || n == 8232
    || n == 8233
    || n == 8239
    || n == 8287
    || n == 12288

unfoldable pub is_space : Char → Bool
unfolding is_space_code
is_space c = is_space_code (code c)

unfoldable pub lstrip : String → String
unfolding is_space
lstrip String.[] = ""
lstrip (String.◌∷◌ c s) = elim (is_space c) [ true ↦ lstrip s | false ↦ String.◌∷◌ c s ]

-- A character before what is left of a text without its trailing space.
abbrev pub put_before : Char → String → String
put_before c String.[] = if is_space c then "" else String.◌∷◌ c ""
put_before c (String.◌∷◌ d s) = String.◌∷◌ c (String.◌∷◌ d s)

unfoldable pub rstrip : String → String
unfolding is_space
rstrip String.[] = ""
rstrip (String.◌∷◌ c s) = put_before c (rstrip s)

-- s.strip()
unfoldable pub strip : String → String
unfolding lstrip rstrip
strip s = rstrip (lstrip s)

-- s.startswith(t)
abbrev pub starts_with : String → String → Bool
starts_with s t = begins s t

-- s.split(sep): `skip` characters of a separator are still to be passed over, `acc` is the piece
-- that is being read.
unfoldable pub split_from : String → ℕ → String → String → List String
split_from sep skip acc String.[] = acc ∷ []
split_from sep (suc skip) acc (String.◌∷◌ c s) = split_from sep skip acc s
split_from sep zero acc (String.◌∷◌ c s) = elim (starts_with (String.◌∷◌ c s) sep) [
  | true ↦ acc ∷ split_from sep (count sep - 1) "" s
  | false ↦ split_from sep 0 (append acc (String.◌∷◌ c "")) s
]

unfoldable pub split : String → String → List String
unfolding split_from
split sep s = split_from sep 0 "" s

-- sep.join(texts)
unfoldable pub join : String → List String → String
join sep [] = ""
join sep (x ∷ []) = x
join sep (x ∷ y ∷ ys) = append x (append sep (join sep (y ∷ ys)))

-- The texts of an f-string, one behind the other.
unfoldable pub concat : List String → String
concat [] = ""
concat (x ∷ xs) = append x (concat xs)

-- len(s)
abbrev pub length_of : String → ℕ
length_of s = count s

abbrev pub is_blank : String → Bool
is_blank s = s == ""
