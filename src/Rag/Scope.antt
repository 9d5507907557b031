-- ===== src/Rag/Scope.antt =====
-- rag/retrieve.py, _build_where_clause: what a query with its filters selects.
use local_ai_server.Prelude.{
  Bool, Bool-cases, List, Option, [], arith, contains, false, inl, inr, is_empty, leb, length,
  list_Eq, list_eq_iff, none, not, number_Eq, refl, some, sym, text_Eq, true, ℕ, ◌&&◌, ◌++◌, ◌==◌,
  ◌||◌, ◌∙◌, ◌∷◌, ◌≡◌, ◌≤◌,
}
use local_ai_server.Rag.Lines.{strip_char, strip_text}
use local_ai_server.Rag.Chunking.{Text}
use local_ai_server.Rag.Rendering.{Metadata}
use local_ai_server.Rag.Filters.{
  Clause, Where, all_of, build_where_clause, channel_clauses, channel_name_eq, channel_name_nin,
  cleaned_channels, combine, date_clauses, epoch_of, exclude_clauses, given, iso_to_epoch, only,
  replace_z, timestamp_end_lte, timestamp_start_gte,
}
use local_ai_server.Prelude.Result.{ok}

-- ChromaDB takes "$and" of two conditions or more only.
abbrev pub IsAccepted : {C : Type 0} → Option (Where C) → Type 0
IsAccepted none = Unit
IsAccepted (some (only c)) = Unit
IsAccepted (some (all_of cs)) = 2 ≤ length cs

abbrev is_name : Text → Option Text → Bool
is_name name none = false
is_name name (some n) = n == name

abbrev is_listed : List Text → Option Text → Bool
is_listed names none = false
is_listed names (some n) = contains names n

abbrev is_at_least : ℕ → Option ℕ → Bool
is_at_least t none = false
is_at_least t (some s) = leb t s

abbrev is_at_most : ℕ → Option ℕ → Bool
is_at_most t none = false
is_at_most t (some s) = leb s t

-- What each operator of ChromaDB asks of a record.
abbrev pub meets : Metadata → Clause → Bool
meets m (channel_name_eq name) = is_name name m.channel_name
meets m (channel_name_nin names) = not (is_listed names m.channel_name)
meets m (timestamp_start_gte t) = is_at_least t m.timestamp_start
meets m (timestamp_end_lte t) = is_at_most t m.timestamp_end

abbrev pub meets_all : Metadata → List Clause → Bool
meets_all m [] = true
meets_all m (c ∷ cs) = meets m c && meets_all m cs

-- Is the channel the one that is asked for, if one is asked for by a name?
abbrev pub in_channel : Option Text → Option Text → Bool
in_channel none name = true
in_channel (some []) name = true
in_channel (some (c ∷ cs)) name = is_name (c ∷ cs) name

-- Does an entry of the list, that is not blank, name the channel, with or without "#" before it?
abbrev pub is_excluded : List Text → Option Text → Bool
is_excluded [] name = false
is_excluded (c ∷ cs) name =
    not (is_empty (strip_text c)) && is_name (strip_text (strip_char 35 c)) name
    || is_excluded cs name

abbrev pub is_from : Option ℕ → Option ℕ → Bool
is_from none time = true
is_from (some t) time = is_at_least t time

abbrev pub is_until : Option ℕ → Option ℕ → Bool
is_until none time = true
is_until (some t) time = is_at_most t time

-- The scope that a caller asks for: each filter that is given.
abbrev pub in_scope : Option Text → Option ℕ → Option ℕ → List Text → Metadata → Bool
in_scope channel start end excluded m =
    in_channel channel m.channel_name
    && (not (is_excluded excluded m.channel_name)
        && (is_from start m.timestamp_start && is_until end m.timestamp_end))

-- The second that a date means: none for no date or an empty one.
abbrev pub Means : (Text → Option ℕ) → Option Text → Option ℕ → Type 0
Means fromisoformat none time = time ≡ none
Means fromisoformat (some []) time = time ≡ none
Means fromisoformat (some (c ∷ cs)) time =
    (t : ℕ) × (fromisoformat (replace_z (c ∷ cs)) ≡ some t) × (time ≡ some t)

iso_to_epoch-read :
    (fromisoformat : Text → Option ℕ) (s : Text) (t : ℕ)
    → fromisoformat (replace_z s) ≡ some t
    → iso_to_epoch fromisoformat s ≡ ok t
unfolding iso_to_epoch
iso_to_epoch-read fromisoformat s t h = rw (h, iso_to_epoch) refl

Means-epoch_of :
    (fromisoformat : Text → Option ℕ) (date : Option Text) (time : Option ℕ)
    → Means fromisoformat date time
    → epoch_of fromisoformat (given date) ≡ ok time
Means-epoch_of fromisoformat none time h = rw h refl
Means-epoch_of fromisoformat (some []) time h = rw h refl
Means-epoch_of fromisoformat (some (c ∷ cs)) time (t, read, is) =
    rw (is, iso_to_epoch-read fromisoformat (c ∷ cs) t read) refl

text_comm : (n t : Text) → (n == t) ≡ (t == n)
text_comm n t = ground (arith, list_eq_iff n t, list_eq_iff t n)

cleaned_channels-is_excluded :
    (cs : List Text) (name : Option Text)
    → is_listed (cleaned_channels cs) name ≡ is_excluded cs name
unfolding cleaned_channels
cleaned_channels-is_excluded [] none = refl
cleaned_channels-is_excluded [] (some n) = unfold contains in refl
cleaned_channels-is_excluded (c ∷ cs) name =
    let rest = cleaned_channels-is_excluded cs name in
    elim (Bool-cases (is_empty (strip_text c))) [
      | inl e ↦ rw (e, cleaned_channels) rest
      | inr e ↦ rw (e, cleaned_channels) (one name (strip_text (strip_char 35 c)) rest)
    ]
  where
    one :
        (o : Option Text) (t : Text)
        → is_listed (cleaned_channels cs) o ≡ is_excluded cs o
        → is_listed (t ∷ cleaned_channels cs) o ≡ (is_name t o || is_excluded cs o)
    one none t rest = rest
    one (some n) t rest = unfold contains in ground (arith, rest, text_comm n t)

meets_all-append :
    (m : Metadata) (cs ds : List Clause)
    → meets_all m (cs ++ ds) ≡ (meets_all m cs && meets_all m ds)
meets_all-append m [] ds = refl
meets_all-append m (c ∷ cs) ds = ground (arith, meets_all-append m cs ds)

none_listed : (o : Option Text) → not (is_listed [] o) ≡ true
none_listed none = refl
none_listed (some n) = unfold contains in refl

-- The conditions, in their order, are what the scope asks for.
meets_all-scope :
    (m : Metadata) (channel : Option Text) (start end : Option ℕ) (excluded : List Text)
    → meets_all m (
        channel_clauses (given channel)
        ++ (exclude_clauses (cleaned_channels excluded)
            ++ (date_clauses timestamp_start_gte start ++ date_clauses timestamp_end_lte end)))
      ≡ in_scope channel start end excluded m
meets_all-scope m channel start end excluded =
    rw
      (
        meets_all-append m (channel_clauses (given channel)) _,
        meets_all-append m (exclude_clauses (cleaned_channels excluded)) _,
        meets_all-append m (date_clauses timestamp_start_gte start)
            (date_clauses timestamp_end_lte end),
        name_part channel,
        list_part (cleaned_channels excluded),
        cleaned_channels-is_excluded excluded m.channel_name,
        start_part start,
        end_part end,
      )
      refl
  where
    name_part :
        (o : Option Text) → meets_all m (channel_clauses (given o)) ≡ in_channel o m.channel_name
    name_part none = refl
    name_part (some []) = refl
    name_part (some (c ∷ cs)) = ground arith

    list_part :
        (names : List Text)
        → meets_all m (exclude_clauses names) ≡ not (is_listed names m.channel_name)
    list_part [] = sym (none_listed m.channel_name)
    list_part (name ∷ names) = ground arith

    start_part :
        (o : Option ℕ)
        → meets_all m (date_clauses timestamp_start_gte o) ≡ is_from o m.timestamp_start
    start_part none = refl
    start_part (some t) = ground arith

    end_part :
        (o : Option ℕ) → meets_all m (date_clauses timestamp_end_lte o) ≡ is_until o m.timestamp_end
    end_part none = refl
    end_part (some t) = ground arith

combine-IsAccepted : {C : Type 0} → (cs : List C) → IsAccepted (combine cs)
unfolding combine
combine-IsAccepted [] = tt
combine-IsAccepted (c ∷ []) = tt
combine-IsAccepted (c ∷ d ∷ cs) = omega arith

-- The database: whether a query selects a record, as it documents its operators.
module _ (selects : Metadata → Where Clause → Bool)
    (selects_only : (m : Metadata) (c : Clause) → selects m (only c) ≡ meets m c)
    (selects_all_of : (m : Metadata) (cs : List Clause)
      → selects m (all_of cs) ≡ meets_all m cs) where
  abbrev pub selected : Metadata → Option (Where Clause) → Bool
  selected m none = true
  selected m (some w) = selects m w

  selected-combine : (m : Metadata) (cs : List Clause) → selected m (combine cs) ≡ meets_all m cs
  unfolding combine
  selected-combine m [] = refl
  selected-combine m (c ∷ []) = selects_only m c ∙ ground arith
  selected-combine m (c ∷ d ∷ cs) = selects_all_of m (c ∷ d ∷ cs)

  -- If ChromaDB selects by its operators as it documents them, and the given dates can be read,
  -- the where-clause is one that ChromaDB takes, and selects exactly the chunks in the scope:
  -- of the channel, of no channel that an entry of the exclusions names, with or without "#"
  -- before it, and within the dates, where each is given.
  pub build_where_clause-selects :
      (fromisoformat : Text → Option ℕ) (channel start_date end_date : Option Text)
      (excluded : List Text) (start end : Option ℕ)
      → Means fromisoformat start_date start
      → Means fromisoformat end_date end
      → (w : Option (Where Clause)) × (build_where_clause fromisoformat channel start_date end_date
            excluded
          ≡ ok w)
        × IsAccepted w
        × ((m : Metadata) → selected m w ≡ in_scope channel start end excluded m)
  unfolding build_where_clause
  build_where_clause-selects fromisoformat channel start_date end_date excluded start end h k =
      let clauses =
        channel_clauses (given channel)
        ++ (exclude_clauses (cleaned_channels excluded)
            ++ (date_clauses timestamp_start_gte start ++ date_clauses timestamp_end_lte end)) in
      (
        combine clauses,
        rw
            (
              Means-epoch_of fromisoformat start_date start h,
              Means-epoch_of fromisoformat end_date end k,
            )
            refl,
        combine-IsAccepted clauses,
        λ m. selected-combine m clauses ∙ meets_all-scope m channel start end excluded,
      )
