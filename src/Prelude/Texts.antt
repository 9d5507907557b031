-- ===== src/Prelude/Texts.antt =====
-- Texts by their code points, and Python's order on them.
use mathlib.Core.List.{List, [], ◌∷◌}
use mathlib.Core.Path.{◌≡◌}
use native.Mathlib.Omega.{arith}
use mathlib.Core.Bool.{Bool, true, false, ◌&&◌}
use Prim.Native.Nat.{ℕ}
use Prim.Native.Char.{code}
use Prim.Native.String.{String, ◌++◌}
use local_ai_server.Prelude.Tests.{if◌then◌else◌, ltb, number_Eq, ◌==◌}

abbrev pub codes : String → List ℕ
codes String.[] = []
codes (String.◌∷◌ c s) = code c ∷ codes s

-- xs <= ys
unfoldable pub codes_leb : List ℕ → List ℕ → Bool
codes_leb [] ys = true
codes_leb (x ∷ xs) [] = false
codes_leb (x ∷ xs) (y ∷ ys) = if ltb x y then true else x == y && codes_leb xs ys

abbrev pub append_text : String → String → String
append_text s t = s ++ t

pub codes_leb_total : (xs ys : List ℕ) → codes_leb xs ys ≡ false → codes_leb ys xs ≡ true
unfolding codes_leb
codes_leb_total [] ys h = ground arith
codes_leb_total (x ∷ xs) [] h = ground arith
codes_leb_total (x ∷ xs) (y ∷ ys) h = ground (arith, codes_leb_total xs ys)
