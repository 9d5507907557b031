-- ===== src/Rag/Tallying.antt =====
-- rag/retrieve.py, aggregate_stats: its tally beside the keys of the messages that match.
use local_ai_server.Prelude.{
  Bool-cases, List, Option, [], ap, arith, if◌then◌else◌, inl, inr, keep_if, length, length-append,
  list_Eq, number_Eq, occurrences, occurrences-append, refl, some, subst, sym, text_Eq, ℕ, ◌++◌,
  ◌+◌, ◌==◌, ◌∙◌, ◌∷◌, ◌≡◌, ◌≤◌,
}
use local_ai_server.Prelude.Dict.{
  Dict, HasUniqueKeys, insert, insert-HasUniqueKeys, lookup, lookup-insert, or_zero,
  or_zero-count_up,
}
use local_ai_server.Rag.Chunking.{Text}
use local_ai_server.Rag.Rendering.{Metadata}
use local_ai_server.Rag.Parsing.{Said}
use local_ai_server.Rag.Context.{Library}
use local_ai_server.Rag.Search.{is_match, messages_of, metadata_or}
use mathlib.Core.List.{append-nil, append_assoc}
use local_ai_server.Rag.Aggregate.{
  GroupBy, Tally, bump, empty_tally, key_of, tally_chunks, tally_messages,
}

-- The keys of the messages that match, one for each message.
module _ (lib : Library) (pattern want : Option Text) (group_by : GroupBy) where
  abbrev pub keys_in : Metadata → List Said → List Text
  keys_in meta [] = []
  keys_in meta (m ∷ ms) = key_of lib.month group_by meta m ∷ keys_in meta ms

  abbrev pub matched_keys : List Text → List (Option Metadata) → List Text
  matched_keys (doc ∷ docs) (meta ∷ metas) =
      keys_in (metadata_or meta)
        (keep_if (is_match lib pattern want) (messages_of lib doc (metadata_or meta)))
      ++ matched_keys docs metas
  matched_keys docs metas = []

abbrev pub bump_each : List Text → Tally → Tally
bump_each [] t = t
bump_each (k ∷ ks) t = bump_each ks (bump k t)

bump_each-append :
    (ks ls : List Text) (t : Tally) → bump_each (ks ++ ls) t ≡ bump_each ls (bump_each ks t)
bump_each-append [] ls t = refl
bump_each-append (k ∷ ks) ls t = bump_each-append ks ls (bump k t)

module _ (lib : Library) (pattern want : Option Text) (group_by : GroupBy) where
  tally_messages-bump_each :
      (meta : Metadata) (ms : List Said) (t : Tally)
      → tally_messages lib pattern want group_by meta ms t
        ≡ bump_each
            (keys_in lib pattern want group_by meta (keep_if (is_match lib pattern want) ms))
            t
  unfolding tally_messages keep_if
  tally_messages-bump_each meta [] t = refl
  tally_messages-bump_each meta (m ∷ ms) t = elim (Bool-cases (is_match lib pattern want m)) [
    | inl e ↦
        rw (e, tally_messages, keep_if)
          (tally_messages-bump_each meta ms (bump (key_of lib.month group_by meta m) t))
    | inr e ↦ rw (e, tally_messages, keep_if) (tally_messages-bump_each meta ms t)
  ]

  pub tally_chunks-bump_each :
      (docs : List Text) (metas : List (Option Metadata)) (t : Tally)
      → tally_chunks lib pattern want group_by docs metas t
        ≡ bump_each (matched_keys lib pattern want group_by docs metas) t
  unfolding tally_chunks
  tally_chunks-bump_each [] metas t = refl
  tally_chunks-bump_each (doc ∷ docs) [] t = refl
  tally_chunks-bump_each (doc ∷ docs) (meta ∷ metas) t =
      let here =
        keys_in lib pattern want group_by (metadata_or meta)
          (keep_if (is_match lib pattern want) (messages_of lib doc (metadata_or meta))) in
      ap (tally_chunks lib pattern want group_by docs metas)
        (tally_messages-bump_each (metadata_or meta) (messages_of lib doc (metadata_or meta)) t)
      ∙ tally_chunks-bump_each docs metas (bump_each here t)
      ∙ sym (bump_each-append here (matched_keys lib pattern want group_by docs metas) t)

abbrev pub sum_counts : Dict Text ℕ → ℕ
sum_counts [] = 0
sum_counts ((k, n) ∷ d) = n + sum_counts d

sum_counts-insert :
    (k : Text) (v : ℕ) (d : Dict Text ℕ)
    → sum_counts (insert k v d) + or_zero (lookup k d) ≡ sum_counts d + v
unfolding insert lookup
sum_counts-insert k v [] = omega arith
sum_counts-insert k v ((j, n) ∷ d) = elim (Bool-cases (j == k)) [
  | inl e ↦ rw (e, insert, lookup) (omega arith)
  | inr e ↦ rw (e, insert, lookup) (omega (arith, sum_counts-insert k v d))
]

-- A tally of the keys that were counted so far.
abbrev pub IsTally : List Text → Tally → Type 0
IsTally done t =
    HasUniqueKeys t.counts
    × ((k : Text) → or_zero (lookup k t.counts) ≡ occurrences k done)
    × ((k : Text) (n : ℕ) → lookup k t.counts ≡ some n → 1 ≤ n)
    × (sum_counts t.counts ≡ length done)
    × (t.total ≡ length done)

or_zero-bump :
    (k j : Text) (t : Tally)
    → or_zero (lookup j (bump k t).counts) ≡ or_zero (lookup j t.counts) + (if k == j then 1 else 0)
unfolding bump
or_zero-bump k j t = or_zero-count_up k j t.counts

bump-positive :
    (k j : Text) (t : Tally) (n : ℕ)
    → ((i : Text) (n : ℕ) → lookup i t.counts ≡ some n → 1 ≤ n)
    → lookup j (bump k t).counts ≡ some n
    → 1 ≤ n
unfolding bump
bump-positive k j t n h found =
    let split = sym (lookup-insert k j (or_zero (lookup k t.counts) + 1) t.counts) ∙ found in
    ground (arith, h j n, split)

bump-IsTally :
    (done : List Text) (k : Text) (t : Tally) → IsTally done t → IsTally (done ++ k ∷ []) (bump k t)
bump-IsTally done k t h = (
  unfold bump in insert-HasUniqueKeys k (or_zero (lookup k t.counts) + 1) t.counts h.0,
  λ j.
      or_zero-bump k j t
      ∙ rw (h.1 j, occurrences-append j done (k ∷ [])) (unfold occurrences in omega arith),
  λ j n found. bump-positive k j t n h.2 found,
  (unfold bump in
      omega (
        arith,
        sum_counts-insert k (or_zero (lookup k t.counts) + 1) t.counts,
        h.3,
        length-append done (k ∷ []),
      )),
  (unfold bump in omega (arith, h.4, length-append done (k ∷ []))),
)

pub bump_each-IsTally :
    (done ks : List Text) (t : Tally) → IsTally done t → IsTally (done ++ ks) (bump_each ks t)
bump_each-IsTally done [] t h = subst (λ l. IsTally l t) (sym (append-nil done)) h
bump_each-IsTally done (k ∷ ks) t h =
    subst (λ l. IsTally l (bump_each ks (bump k t))) (append_assoc done (k ∷ []) ks)
      (bump_each-IsTally (done ++ k ∷ []) ks (bump k t) (bump-IsTally done k t h))

pub empty_tally-IsTally : IsTally [] empty_tally
empty_tally-IsTally =
    (tt, λ k. unfold lookup occurrences in refl, λ k n h. unfold lookup in absurd (cc), refl, refl)
