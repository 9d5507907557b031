-- ===== src/Rag/Filters.antt =====
-- rag/retrieve.py: _iso_to_epoch, _build_where_clause, _term_regex, _author_regex and
-- _build_document_filter. datetime.fromisoformat, with the epoch second of what it reads, and
-- re.escape are arguments.
use local_ai_server.Prelude.{
  Bool, List, Option, [], if◌then◌else◌, is_empty, list_Eq, none, number_Eq, some, text_Eq, true, ℕ,
  ◌++◌, ◌==◌, ◌∷◌,
}
use local_ai_server.Prelude.Texts.{codes}
use local_ai_server.Prelude.Result.{Result, err, ok, ◌>>=◌}
use local_ai_server.Rag.Chunking.{Text}
use local_ai_server.Rag.Lines.{strip_char, strip_text}

-- A constraint of a where-clause, named for its field and its operator.
pub data Clause : Type 0 where
  channel_name_eq : Text → Clause
  channel_name_nin : List Text → Clause
  timestamp_start_gte : ℕ → Clause
  timestamp_end_lte : ℕ → Clause

-- What a query carries: one condition, or several under "$and".
pub data Where (C : Type 0) : Type 0 where
  only : C → Where C
  all_of : List C → Where C

-- None, the one condition, or "$and" of all.
unfoldable pub combine : {C : Type 0} → List C → Option (Where C)
combine [] = none
combine (c ∷ []) = some (only c)
combine (c ∷ d ∷ cs) = some (all_of (c ∷ d ∷ cs))

-- `if value:`
abbrev pub given : Option Text → Option Text
given none = none
given (some []) = none
given (some (c ∷ cs)) = some (c ∷ cs)

-- A test that is made only where there is a value.
abbrev pub if_given : {A : Type 0} → (A → Bool) → Option A → Bool
if_given test none = true
if_given test (some a) = test a

-- s.replace("Z", "+00:00")
unfoldable pub replace_z : Text → Text
replace_z [] = []
replace_z (c ∷ cs) = (if c == 90 then codes "+00:00" else c ∷ []) ++ replace_z cs

-- [c.lstrip("#").strip() for c in channels if c and c.strip()]
unfoldable pub cleaned_channels : List Text → List Text
unfolding strip_text strip_char
cleaned_channels [] = []
cleaned_channels (c ∷ cs) =
    if is_empty (strip_text c)
    then cleaned_channels cs
    else strip_text (strip_char 35 c) ∷ cleaned_channels cs

abbrev pub channel_clauses : Option Text → List Clause
channel_clauses none = []
channel_clauses (some name) = channel_name_eq name ∷ []

abbrev pub exclude_clauses : List Text → List Clause
exclude_clauses [] = []
exclude_clauses (c ∷ cs) = channel_name_nin (c ∷ cs) ∷ []

abbrev pub date_clauses : (ℕ → Clause) → Option ℕ → List Clause
date_clauses make none = []
date_clauses make (some t) = make t ∷ []

-- A date that cannot be read raises.
pub data Raised : Type 0 where
  bad_date : Text → Raised

module _ (fromisoformat : Text → Option ℕ) where
  -- _iso_to_epoch
  unfoldable pub iso_to_epoch : Text → Result Raised ℕ
  unfolding replace_z
  iso_to_epoch s = elim (fromisoformat (replace_z s)) [ none ↦ err (bad_date s) | some t ↦ ok t ]

  abbrev pub epoch_of : Option Text → Result Raised (Option ℕ)
  epoch_of none = ok none
  epoch_of (some s) = iso_to_epoch s >>= λ t. ok (some t)

  -- _build_where_clause; no excluded channels are the empty list.
  unfoldable pub build_where_clause :
      Option Text → Option Text → Option Text → List Text → Result Raised (Option (Where Clause))
  unfolding iso_to_epoch cleaned_channels combine
  build_where_clause channel_name start_date end_date exclude_channels = do
    start ← epoch_of (given start_date)
    end ← epoch_of (given end_date)
    ok (
        combine (
          channel_clauses (given channel_name)
          ++ (exclude_clauses (cleaned_channels exclude_channels)
              ++ (date_clauses timestamp_start_gte start ++ date_clauses timestamp_end_lte end))))

abbrev pub pattern_of : (Text → Text) → Option Text → List Text
pattern_of make none = []
pattern_of make (some t) = make t ∷ []

module _ (escape : Text → Text) where
  -- _author_regex
  unfoldable pub author_regex : Text → Text
  unfolding strip_char
  author_regex author = codes "(?im)^" ++ (escape (strip_char 64 author) ++ codes ":")

  -- _term_regex
  unfoldable pub term_regex : Text → Bool → Text
  term_regex term whole_word =
      if whole_word then codes "(?i)\\b" ++ escape term else codes "(?i)" ++ escape term

  -- _build_document_filter, of patterns
  unfoldable pub build_document_filter : Option Text → Option Text → Bool → Option (Where Text)
  unfolding term_regex author_regex combine
  build_document_filter term author whole_word = combine (
      pattern_of (λ t. term_regex t whole_word) (given term)
      ++ pattern_of author_regex (given author))
