-- ===== src/Rag/Tally.antt =====
-- rag/retrieve.py, aggregate_stats: what it reports.
use local_ai_server.Prelude.{
  All, Bool, Bool-cases, List, Option, [], ap, arith, if◌then◌else◌, inl, inr, keep_if, length,
  list_Eq, list_eq_iff, ltb, none, number_Eq, occurrences, refl, some, subst, sym, take, text_Eq,
  true, ℕ, ◌++◌, ◌+◌, ◌<◌, ◌==◌, ◌∙◌, ◌∷◌, ◌≡◌, ◌≤◌, ◌⊎◌,
}
use local_ai_server.Rag.Parsing.{Said}
use local_ai_server.Rag.Rendering.{Metadata}
use local_ai_server.Rag.Lines.{join_with, line_feed}
use local_ai_server.Rag.Meant.{is_match-is_meant, is_meant}
use local_ai_server.Prelude.Dict.{Dict, lookup, lookup-each, or_zero}
use local_ai_server.Rag.Chunking.{Text}
use local_ai_server.Rag.Context.{Collection, Found, Library}
use local_ai_server.Rag.Search.{Query, fetch, messages_of, metadata_or, term_pattern, want_author}
use local_ai_server.Rag.Aggregate.{
  GroupBy, Tally, aggregate_stats, by_author, by_channel, by_month, earlier_key, empty_tally,
  group_lines, heading_of, key_of, more_counted, more_line, ordered, report_of,
}
use local_ai_server.Prelude.Sorting.{
  All-sort_by, IsSorted, IsTotal, place_by, sort_by, sort_by-IsSorted,
}
use local_ai_server.Prelude.Texts.{codes_leb, codes_leb_total}
use local_ai_server.Prelude.Result.{ok}
use local_ai_server.Rag.Filters.{given}
use local_ai_server.Rag.Tallying.{
  bump_each, bump_each-IsTally, empty_tally-IsTally, keys_in, matched_keys, sum_counts,
  tally_chunks-bump_each,
}

sum_counts-place_by :
    (before : Text × ℕ → Text × ℕ → Bool) (p : Text × ℕ) (d : Dict Text ℕ)
    → sum_counts (place_by before p d) ≡ p.1 + sum_counts d
unfolding place_by
sum_counts-place_by before (k, n) [] = refl
sum_counts-place_by before (k, n) ((j, m) ∷ d) = elim (Bool-cases (before (k, n) (j, m))) [
  | inl e ↦ rw (e, place_by) refl
  | inr e ↦ rw (e, place_by) (omega (arith, sum_counts-place_by before (k, n) d))
]

sum_counts-sort_by :
    (before : Text × ℕ → Text × ℕ → Bool) (d : Dict Text ℕ)
    → sum_counts (sort_by before d) ≡ sum_counts d
unfolding sort_by
sum_counts-sort_by before [] = refl
sum_counts-sort_by before ((k, n) ∷ d) =
    sum_counts-place_by before (k, n) (sort_by before d)
    ∙ ap (λ s. n + s) (sum_counts-sort_by before d)

-- The order of a report.
abbrev pub order_of : GroupBy → Text × ℕ → Text × ℕ → Bool
order_of by_author = more_counted
order_of by_channel = more_counted
order_of by_month = earlier_key

more_counted-IsTotal : IsTotal more_counted
unfolding more_counted
more_counted-IsTotal (j, v) (k, w) h = ground (arith, codes_leb_total j k)

earlier_key-IsTotal : IsTotal earlier_key
unfolding earlier_key
earlier_key-IsTotal (j, v) (k, w) h =
    ground (arith, codes_leb_total j k, list_eq_iff j k, list_eq_iff k j)

order_of-IsTotal : (group_by : GroupBy) → IsTotal (order_of group_by)
order_of-IsTotal by_author = more_counted-IsTotal
order_of-IsTotal by_channel = more_counted-IsTotal
order_of-IsTotal by_month = earlier_key-IsTotal

ordered_lem :
    (group_by : GroupBy) (d : Dict Text ℕ) → ordered group_by d ≡ sort_by (order_of group_by) d
unfolding ordered
ordered_lem by_author d = refl
ordered_lem by_channel d = refl
ordered_lem by_month d = refl

-- The order of a report: by falling count and, where these are equal, by rising name, or, for
-- months, by rising name.
abbrev pub MayPrecede : GroupBy → Text × ℕ → Text × ℕ → Type 0
MayPrecede by_author (j, v) (k, w) = (w < v) ⊎ ((v ≡ w) × (codes_leb j k ≡ true))
MayPrecede by_channel (j, v) (k, w) = (w < v) ⊎ ((v ≡ w) × (codes_leb j k ≡ true))
MayPrecede by_month (j, v) (k, w) = codes_leb j k ≡ true

abbrev pub IsListed : GroupBy → List (Text × ℕ) → Type 0
IsListed group_by [] = Unit
IsListed group_by (p ∷ []) = Unit
IsListed group_by (p ∷ r ∷ rs) = MayPrecede group_by p r × IsListed group_by (r ∷ rs)

more_counted-MayPrecede :
    (j k : Text) (v w : ℕ)
    → more_counted (j, v) (k, w) ≡ true
    → (w < v) ⊎ ((v ≡ w) × (codes_leb j k ≡ true))
unfolding more_counted
more_counted-MayPrecede j k v w h = elim (Bool-cases (ltb w v)) [
  | inl e ↦ inl (ground arith)
  | inr e ↦ inr (ground arith, ground arith)
]

codes_leb_refl : (s : Text) → codes_leb s s ≡ true
codes_leb_refl s = elim (Bool-cases (codes_leb s s)) [ inl e ↦ e | inr e ↦ codes_leb_total s s e ]

order_of-MayPrecede :
    (group_by : GroupBy) (p r : Text × ℕ) → order_of group_by p r ≡ true → MayPrecede group_by p r
unfolding earlier_key
order_of-MayPrecede by_author (j, v) (k, w) h = more_counted-MayPrecede j k v w h
order_of-MayPrecede by_channel (j, v) (k, w) h = more_counted-MayPrecede j k v w h
order_of-MayPrecede by_month (j, v) (k, w) h = elim (Bool-cases (j == k)) [
  | inl e ↦ subst (λ s. codes_leb j s ≡ true) ((list_eq_iff j k).0 e) (codes_leb_refl j)
  | inr e ↦ ground arith
]

IsSorted-IsListed :
    (group_by : GroupBy) (ps : List (Text × ℕ))
    → IsSorted (order_of group_by) ps
    → IsListed group_by ps
IsSorted-IsListed group_by [] h = tt
IsSorted-IsListed group_by (p ∷ []) h = tt
IsSorted-IsListed group_by (p ∷ r ∷ rs) h =
    (order_of-MayPrecede group_by p r h.0, IsSorted-IsListed group_by (r ∷ rs) h.1)

module _ (lib : Library) (q : Query) (group_by : GroupBy) where
  -- The groups of the messages that the query asks for, one for each message.
  abbrev pub meant_keys : List Text → List (Option Metadata) → List Text
  meant_keys (doc ∷ docs) (meta ∷ metas) =
      keys_in lib none none group_by (metadata_or meta)
        (keep_if (is_meant lib q) (messages_of lib doc (metadata_or meta)))
      ++ meant_keys docs metas
  meant_keys docs metas = []

  keys_in-same :
      (pattern want : Option Text) (meta : Metadata) (ms : List Said)
      → keys_in lib pattern want group_by meta ms ≡ keys_in lib none none group_by meta ms
  keys_in-same pattern want meta [] = refl
  keys_in-same pattern want meta (m ∷ ms) =
      ap (λ l. key_of lib.month group_by meta m ∷ l) (keys_in-same pattern want meta ms)

  matched_keys-meant :
      (docs : List Text) (metas : List (Option Metadata))
      → matched_keys lib
          (term_pattern lib (given q.term) q.whole_word)
          (want_author lib (given q.author))
          group_by
          docs
          metas
        ≡ meant_keys docs metas
  matched_keys-meant [] metas = refl
  matched_keys-meant (doc ∷ docs) [] = refl
  matched_keys-meant (doc ∷ docs) (meta ∷ metas) =
      rw
        (
          matched_keys-meant docs metas,
          is_match-is_meant lib q,
          keys_in-same (term_pattern lib (given q.term) q.whole_word)
              (want_author lib (given q.author)) (metadata_or meta)
              (keep_if (is_meant lib q) (messages_of lib doc (metadata_or meta))),
        )
        refl

module _ (lib : Library) (collection : Collection) (q : Query) (excluded : List Text)
    (group_by : GroupBy) (top_n : ℕ) where
  abbrev pub keys_for : Found → List Text
  keys_for a = meant_keys lib q group_by a.documents a.metadatas

  abbrev tally_for : Found → Tally
  tally_for a = bump_each (keys_for a) empty_tally

  aggregate_stats-tally :
      (a : Found)
      → fetch lib collection q excluded ≡ ok (some a)
      → aggregate_stats lib q excluded group_by top_n collection
        ≡ ok (
            if length (keys_for a) == 0 then ([], 0) else (
              report_of lib q excluded group_by top_n
                  (sort_by (order_of group_by) (tally_for a).counts)
                  (length (keys_for a)),
              length (keys_for a),
            ))
  aggregate_stats-tally a h =
      let tally = bump_each-IsTally [] (keys_for a) empty_tally empty_tally-IsTally in
      unfold aggregate_stats in
      rw
        (
          h,
          tally_chunks-bump_each lib (term_pattern lib (given q.term) q.whole_word)
              (want_author lib (given q.author)) group_by a.documents a.metadatas empty_tally,
          matched_keys-meant lib q group_by a.documents a.metadatas,
          tally.4,
          ordered_lem group_by (tally_for a).counts,
        )
        refl

  -- Where the dates can be read and the collection answers: behind its first line the report lists
  -- the first `top_n` of all groups, by falling number and then by name, or by name for months,
  -- and says how many more there are; each group stands with the number of the messages in it by
  -- the author and with the term, no group is empty, and the numbers of all groups add up to the
  -- number of these messages, which is the total. Where there is none, the report is empty.
  pub aggregate_stats-counts :
      (a : Found)
      → fetch lib collection q excluded ≡ ok (some a)
      → (all : List (Text × ℕ)) × All (λ p. (p.1 ≡ occurrences p.0 (keys_for a)) × (1 ≤ p.1)) all
        × (sum_counts all ≡ length (keys_for a))
        × IsListed group_by all
        × (aggregate_stats lib q excluded group_by top_n collection
            ≡ ok (
                if length (keys_for a) == 0 then ([], 0) else (
                  heading_of lib q excluded group_by top_n (length (keys_for a))
                      ++ join_with line_feed (
                          group_lines lib q excluded group_by top_n (take top_n all)
                          ++ more_line lib q excluded group_by top_n
                              (length all)
                              (length (take top_n all))),
                  length (keys_for a),
                )))
  aggregate_stats-counts a h =
      let counts = (tally_for a).counts in
      let tally = bump_each-IsTally [] (keys_for a) empty_tally empty_tally-IsTally in
      (
        sort_by (order_of group_by) counts,
        All-sort_by (λ p. (p.1 ≡ occurrences p.0 (keys_for a)) × (1 ≤ p.1)) (order_of group_by)
            counts (entries counts counts tally.1 tally.2 (lookup-each counts tally.0)),
        sum_counts-sort_by (order_of group_by) counts ∙ tally.3,
        IsSorted-IsListed group_by (sort_by (order_of group_by) counts)
            (sort_by-IsSorted (order_of group_by) (order_of-IsTotal group_by) counts),
        unfold report_of in aggregate_stats-tally a h,
      )
    where
      entries :
          (d ds : Dict Text ℕ)
          → ((k : Text) → or_zero (lookup k d) ≡ occurrences k (keys_for a))
          → ((k : Text) (n : ℕ) → lookup k d ≡ some n → 1 ≤ n)
          → All (λ p. lookup p.0 d ≡ some p.1) ds
          → All (λ p. (p.1 ≡ occurrences p.0 (keys_for a)) × (1 ≤ p.1)) ds
      entries d [] c pos each = tt
      entries d ((k, n) ∷ ds) c pos each =
          ((sym (ap or_zero each.0) ∙ c k, pos k n each.0), entries d ds c pos each.1)
