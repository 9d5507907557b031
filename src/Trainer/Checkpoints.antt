-- ===== src/Trainer/Checkpoints.antt =====
-- lora-training/checkpoints.py: which directories are checkpoints, the newest complete one, and
-- what is deleted. A directory is the list of its entries; a name is given by its code points.
use local_ai_server.Prelude.{
  Bool, List, Option, String, [], contains, if◌then◌else◌, is_empty, keep_if, leb, length, list_Eq,
  ltb, none, not, number_Eq, some, take, text_Eq, ℕ, ◌&&◌, ◌*◌, ◌++◌, ◌+◌, ◌-◌, ◌==◌, ◌||◌, ◌∷◌,
}
use local_ai_server.Prelude.Texts.{codes, codes_leb}

pub record Entry : Type 0 where
  pub name : String
  pub is_dir : Bool
  -- the marker file stands in it
  pub is_complete : Bool

abbrev pub is_digit : ℕ → Bool
is_digit c = leb b'0' c && leb c b'9'

-- The value of a run of digits after those with the value `acc`; `$` also stands before a line feed
-- that ends the text.
unfoldable pub digits_from : ℕ → List ℕ → Option ℕ
digits_from acc [] = some acc
digits_from acc (c ∷ cs) =
    let rest = digits_from (acc * 10 + (c - b'0')) cs in
    if is_digit c then rest else if c == 10 && is_empty cs then some acc else none

-- (\d+)$, of ASCII digits
unfoldable pub number_of : List ℕ → Option ℕ
unfolding digits_from
number_of [] = none
number_of (c ∷ cs) = if is_digit c then digits_from 0 (c ∷ cs) else none

unfoldable pub after_prefix : List ℕ → List ℕ → Option ℕ
unfolding number_of
after_prefix [] cs = number_of cs
after_prefix (p ∷ ps) [] = none
after_prefix (p ∷ ps) (c ∷ cs) = if p == c then after_prefix ps cs else none

-- _step_of, with the pattern ^checkpoint-(\d+)$
unfoldable pub step_of : String → Option ℕ
unfolding after_prefix
step_of name = after_prefix (codes "checkpoint-") (codes name)

pub record Checkpoint : Type 0 where
  pub step : ℕ
  pub entry : Entry

-- The order of the pairs (step, path).
unfoldable pub not_newer : Checkpoint → Checkpoint → Bool
unfolding codes_leb
not_newer a b =
    ltb a.step b.step || a.step == b.step && codes_leb (codes a.entry.name) (codes b.entry.name)

unfoldable pub place : Checkpoint → List Checkpoint → List Checkpoint
unfolding not_newer
place a [] = a ∷ []
place a (b ∷ bs) = if not_newer a b then a ∷ b ∷ bs else b ∷ place a bs

-- all_checkpoints, for the entries of a directory that exists (of one that does not, none).
unfoldable pub all_checkpoints : List Entry → List Checkpoint
unfolding step_of place
all_checkpoints [] = []
all_checkpoints (e ∷ es) = elim (step_of e.name) [
  | none ↦ all_checkpoints es
  | some n ↦
      if e.is_dir
      then place (record { step = n; entry = e }) (all_checkpoints es)
      else all_checkpoints es
]

abbrev pub finished : Checkpoint → Bool
finished c = c.entry.is_complete

unfoldable pub complete_ones : List Entry → List Checkpoint
unfolding all_checkpoints keep_if
complete_ones dir = keep_if finished (all_checkpoints dir)

-- `complete[-1]`, if there is one.
unfoldable pub last : List Checkpoint → Option Checkpoint
last [] = none
last (c ∷ []) = some c
last (c ∷ d ∷ cs) = last (d ∷ cs)

unfoldable pub latest : List Entry → Option Checkpoint
unfolding last complete_ones
latest dir = last (complete_ones dir)

abbrev pub names : List Checkpoint → List String
names [] = []
names (c ∷ cs) = c.entry.name ∷ names cs

-- `complete[:-keep] if keep > 0 else complete`
unfoldable pub superseded : ℕ → List Checkpoint → List Checkpoint
superseded keep complete = take (length complete - keep) complete

-- prune: the names that are removed, in order, and what is left of the directory.
unfoldable pub prune : ℕ → List Entry → List String × List Entry
unfolding superseded complete_ones
prune keep dir =
    let partial = keep_if (λ c. not (finished c)) (all_checkpoints dir) in
    let removed = names partial ++ names (superseded keep (complete_ones dir)) in
    (removed, keep_if (λ e. not (contains removed e.name)) dir)
