-- ===== src/Rag/Ranking.antt =====
-- rag/retrieve.py, search_literal: which chunks it finds, and in which order.
use local_ai_server.Prelude.{
  Bool, List, Option, String, [], ap, arith, false, if◌then◌else◌, is_empty, keep_if, length,
  list_Eq, not, number_Eq, refl, some, subst, suc, take, text_Eq, true, zero, ℕ, ◌&&◌, ◌++◌, ◌∷◌,
  ◌≡◌, ◌≤◌,
}
use local_ai_server.Prelude.Dict.{or_zero}
use local_ai_server.Rag.Meant.{IsAsked, IsAsked-given, IsAsked-wanted, is_match-is_meant, is_meant}
use local_ai_server.Prelude.Result.{ok}
use local_ai_server.Prelude.Sorting.{IsSorted, IsTotal, sort_by, sort_by-IsSorted, sort_by-perm}
use local_ai_server.Rag.Chunking.{Message, Text}
use local_ai_server.Rag.Lines.{join_with}
use local_ai_server.Rag.Rendering.{Metadata, build_metadata, format_chunk_text}
use local_ai_server.Rag.Filters.{given}
use local_ai_server.Rag.Context.{Collection, Found, Library, separator}
use local_ai_server.Rag.Search.{
  KeptChunk, Query, blocks_of, comes_first, fetch, hit_texts, hits_of, is_match, is_missing,
  keep_chunks, keep_hits, messages_of, metadata_or, rank_chunks, render_kept, search_literal,
  term_pattern, want_author,
}
use local_ai_server.Rag.RoundTrip.{IsWritable, reads_back}
use local_ai_server.Rag.Reading.{all_said}
use mathlib.Core.List.{Perm}

-- Each chunk of an answer with the messages in it that match.
module _ (lib : Library) (pattern want : Option Text) where
  abbrev chunks_with_hits : List Text → List (Option Metadata) → List KeptChunk
  chunks_with_hits (doc ∷ docs) (meta ∷ metas) =
      record {
        document = doc;
        metadata = metadata_or meta;
        hits = hits_of lib pattern want doc (metadata_or meta);
      }
      ∷ chunks_with_hits docs metas
  chunks_with_hits docs metas = []

abbrev pub has_hit : KeptChunk → Bool
has_hit k = not (is_empty k.hits)

module _ (lib : Library) (pattern want : Option Text) where
  keep_chunks-chunks_with_hits :
      (docs : List Text) (metas : List (Option Metadata))
      → (is_missing pattern && is_missing want) ≡ false
      → keep_chunks lib pattern want docs metas
        ≡ keep_if has_hit (chunks_with_hits lib pattern want docs metas)
  unfolding keep_chunks keep_if
  keep_chunks-chunks_with_hits [] metas h = refl
  keep_chunks-chunks_with_hits (doc ∷ docs) [] h = refl
  keep_chunks-chunks_with_hits (doc ∷ docs) (meta ∷ metas) h =
      rw (h, keep_chunks-chunks_with_hits docs metas h)
        (one (hits_of lib pattern want doc (metadata_or meta))
          (keep_if has_hit (chunks_with_hits lib pattern want docs metas)))
    where
      one :
          (hits : List Text) (rest : List KeptChunk)
          → keep_hits false doc (metadata_or meta) hits ++ rest ≡ (
              if not (is_empty hits)
              then record { document = doc; metadata = metadata_or meta; hits = hits } ∷ rest
              else rest)
      one [] rest = refl
      one (x ∷ xs) rest = refl

comes_first-IsTotal : (latest : Bool) → IsTotal (comes_first latest)
unfolding comes_first
comes_first-IsTotal true a b h = ground arith
comes_first-IsTotal false a b h = ground arith

render_kept_lem :
    (decimal : ℕ → Text) (latest : Bool) (limit : ℕ) (kept : List KeptChunk)
    → render_kept decimal latest limit kept ≡ (
      join_with separator (blocks_of decimal (take limit (sort_by (comes_first latest) kept))),
      length (sort_by (comes_first latest) kept),
    )
unfolding render_kept rank_chunks
render_kept_lem decimal latest zero [] = unfold join_with sort_by in refl
render_kept_lem decimal latest (suc limit) [] = unfold join_with sort_by in refl
render_kept_lem decimal latest limit (k ∷ ks) = refl

-- By rising times, or by falling ones; a chunk without a time counts as of 0.
abbrev pub IsRanked : Bool → List KeptChunk → Type 0
IsRanked latest [] = Unit
IsRanked latest (j ∷ []) = Unit
IsRanked false (j ∷ k ∷ ks) =
    (or_zero j.metadata.timestamp_start ≤ or_zero k.metadata.timestamp_start)
    × IsRanked false (k ∷ ks)
IsRanked true (j ∷ k ∷ ks) =
    (or_zero k.metadata.timestamp_start ≤ or_zero j.metadata.timestamp_start)
    × IsRanked true (k ∷ ks)

IsSorted-IsRanked :
    (latest : Bool) (ks : List KeptChunk) → IsSorted (comes_first latest) ks → IsRanked latest ks
unfolding comes_first
IsSorted-IsRanked latest [] h = tt
IsSorted-IsRanked latest (j ∷ []) h = tt
IsSorted-IsRanked false (j ∷ k ∷ ks) h = (ground (arith, h.0), IsSorted-IsRanked false (k ∷ ks) h.1)
IsSorted-IsRanked true (j ∷ k ∷ ks) h = (ground (arith, h.0), IsSorted-IsRanked true (k ∷ ks) h.1)

module _ (lib : Library) (q : Query) where
  -- Each chunk of an answer with the messages in it that the query asks for.
  abbrev pub chunks_with_meant : List Text → List (Option Metadata) → List KeptChunk
  chunks_with_meant (doc ∷ docs) (meta ∷ metas) =
      record {
        document = doc;
        metadata = metadata_or meta;
        hits = hit_texts (keep_if (is_meant lib q) (messages_of lib doc (metadata_or meta)));
      }
      ∷ chunks_with_meant docs metas
  chunks_with_meant docs metas = []

  abbrev pattern_for : Option Text
  pattern_for = term_pattern lib (given q.term) q.whole_word

  abbrev author_for : Option Text
  author_for = want_author lib (given q.author)

  chunks_with_hits-meant :
      (docs : List Text) (metas : List (Option Metadata))
      → chunks_with_hits lib pattern_for author_for docs metas ≡ chunks_with_meant docs metas
  unfolding hits_of
  chunks_with_hits-meant [] metas = refl
  chunks_with_hits-meant (doc ∷ docs) [] = refl
  chunks_with_hits-meant (doc ∷ docs) (meta ∷ metas) = rw (chunks_with_hits-meant docs metas) (
      ap
        (λ p.
          record {
            document = doc;
            metadata = metadata_or meta;
            hits = hit_texts (keep_if p (messages_of lib doc (metadata_or meta)));
          }
          ∷ chunks_with_meant docs metas)
        (is_match-is_meant lib q))

module _ (lib : Library) (collection : Collection) (q : Query) (latest : Bool) (limit : ℕ) where
  ranks_found :
      (a : Found)
      → fetch lib collection q [] ≡ ok (some a)
      → IsAsked lib q
      → let r = sort_by (comes_first latest) (
          keep_if has_hit (
            chunks_with_hits lib (pattern_for lib q) (author_for lib q) a.documents a.metadatas)) in
        search_literal lib collection q latest limit
        ≡ ok (join_with separator (blocks_of lib.decimal (take limit r)), length r)
  ranks_found a h asked =
      unfold search_literal in
      rw
        (
          IsAsked-given lib q asked,
          h,
          keep_chunks-chunks_with_hits lib (pattern_for lib q) (author_for lib q) a.documents
              a.metadatas (IsAsked-wanted lib q asked),
        )
        (ap ok (render_kept_lem lib.decimal latest limit _))

  -- Where a term is given, or an author whose folded name behind "@" is not empty, the dates can be
  -- read and the collection answers: the search shows the first `limit` chunks of a list in which
  -- the chunks of the answer with a message by the author and with the term stand, each once with
  -- those messages, by rising times or, for the latest, by falling ones, and says how many they are.
  pub search_literal-ranks :
      (a : Found)
      → fetch lib collection q [] ≡ ok (some a)
      → IsAsked lib q
      → (r : List KeptChunk) × Perm r
          (keep_if has_hit (chunks_with_meant lib q a.documents a.metadatas))
        × IsRanked latest r
        × (search_literal lib collection q latest limit
            ≡ ok (join_with separator (blocks_of lib.decimal (take limit r)), length r))
  search_literal-ranks a h asked =
      let kept =
        keep_if has_hit
          (chunks_with_hits lib (pattern_for lib q) (author_for lib q) a.documents a.metadatas) in
      (
        sort_by (comes_first latest) kept,
        subst (λ l. Perm (sort_by (comes_first latest) kept) (keep_if has_hit l))
            (chunks_with_hits-meant lib q a.documents a.metadatas)
            (sort_by-perm (comes_first latest) kept),
        IsSorted-IsRanked latest (sort_by (comes_first latest) kept)
            (sort_by-IsSorted (comes_first latest) (comes_first-IsTotal latest) kept),
        ranks_found a h asked,
      )

-- The hits in the text that the ingest writes for a chunk are the messages of the chunk that are
-- by the author and have the term, where the format carries the chunk.
pub hits_of-format_chunk_text :
    (lib : Library) (hour minute : ℕ → Text) (pattern want : Option Text) (sha256 : String → String)
    (number : ℕ → String) (m : Message) (ms : List Message)
    → IsWritable lib.casefold hour minute m ms
    → hits_of lib pattern want
        (format_chunk_text hour minute (m ∷ ms))
        (build_metadata sha256 number m ms)
      ≡ hit_texts (keep_if (is_match lib pattern want) (all_said (m ∷ ms)))
unfolding hits_of build_metadata
hits_of-format_chunk_text lib hour minute pattern want sha256 number m ms h =
    ap (λ l. hit_texts (keep_if (is_match lib pattern want) l))
      (reads_back lib.casefold hour minute m ms h)
