-- ===== src/Rag/Search.antt =====
-- rag/retrieve.py: search_literal. ChromaDB, regular expressions and casefold are arguments; a
-- limit is not negative.
use local_ai_server.Prelude.{
  Bool, List, Option, [], false, if◌then◌else◌, is_empty, keep_if, leb, length, list_Eq, ltb, none,
  number_Eq, some, take, text_Eq, true, ℕ, ◌&&◌, ◌++◌, ◌-◌, ◌==◌, ◌∷◌,
}
use local_ai_server.Prelude.Texts.{codes}
use local_ai_server.Prelude.Result.{Result, ok, ◌>>=◌}
use local_ai_server.Prelude.Sorting.{sort_by}
use local_ai_server.Prelude.Dict.{or_zero}
use local_ai_server.Rag.Chunking.{Text}
use local_ai_server.Rag.Lines.{join_with, line_feed, strip_char, strip_text}
use local_ai_server.Rag.Rendering.{Metadata}
use local_ai_server.Rag.Parsing.{Said, parse_chunk_messages}
use local_ai_server.Rag.Filters.{
  Raised, build_document_filter, build_where_clause, given, if_given, term_regex,
}
use local_ai_server.Rag.Context.{Collection, Found, Library, separator}

abbrev pub no_metadata : Metadata
no_metadata = record {
  chunk_id = none;
  channel_id = none;
  channel_name = none;
  timestamp_start = none;
  timestamp_end = none;
  authors = none;
  message_count = none;
  message_ids = none;
}

-- `meta or {}`
abbrev pub metadata_or : Option Metadata → Metadata
metadata_or none = no_metadata
metadata_or (some meta) = meta

module _ (lib : Library) where
  -- term_re, and want_author
  abbrev pub term_pattern : Option Text → Bool → Option Text
  term_pattern none whole_word = none
  term_pattern (some term) whole_word = some (term_regex lib.escape term whole_word)

  abbrev pub want_author : Option Text → Option Text
  want_author none = none
  want_author (some author) = given (some (lib.casefold (strip_char 64 author)))

  -- Is this message by the author that is wanted, if one is, and has it the term, if one is given?
  abbrev pub is_match : Option Text → Option Text → Said → Bool
  is_match pattern want m =
      if_given (λ author. lib.casefold m.speaker == author) want
      && if_given (λ p. lib.search p m.text) pattern

  abbrev pub messages_of : Text → Metadata → List Said
  messages_of doc meta = parse_chunk_messages lib.casefold doc meta.authors

abbrev pub hit_texts : List Said → List Text
hit_texts [] = []
hit_texts (m ∷ ms) = (m.speaker ++ (codes ": " ++ m.text)) ∷ hit_texts ms

-- An entry of `kept`.
pub record KeptChunk : Type 0 where
  pub document : Text
  pub metadata : Metadata
  pub hits : List Text

-- A chunk with its hits: without any it is kept only if neither term nor author is wanted.
abbrev pub keep_hits : Bool → Text → Metadata → List Text → List KeptChunk
keep_hits true doc meta hits = record { document = doc; metadata = meta; hits = [] } ∷ []
keep_hits false doc meta [] = []
keep_hits false doc meta (h ∷ hs) = record { document = doc; metadata = meta; hits = h ∷ hs } ∷ []

abbrev pub is_missing : {A : Type 0} → Option A → Bool
is_missing none = true
is_missing (some a) = false

module _ (lib : Library) (pattern want : Option Text) where
  unfoldable pub hits_of : Text → Metadata → List Text
  unfolding keep_if parse_chunk_messages
  hits_of doc meta = hit_texts (keep_if (is_match lib pattern want) (messages_of lib doc meta))

  -- The loop that fills `kept`.
  unfoldable pub keep_chunks : List Text → List (Option Metadata) → List KeptChunk
  unfolding hits_of
  keep_chunks (doc ∷ docs) (meta ∷ metas) =
      keep_hits (is_missing pattern && is_missing want) doc (metadata_or meta)
        (hits_of doc (metadata_or meta))
      ++ keep_chunks docs metas
  keep_chunks docs metas = []

-- The order of the sort: by `timestamp_start`, the latest first if `latest`.
unfoldable pub comes_first : Bool → KeptChunk → KeptChunk → Bool
comes_first latest a b =
    if latest
    then leb (or_zero b.metadata.timestamp_start) (or_zero a.metadata.timestamp_start)
    else leb (or_zero a.metadata.timestamp_start) (or_zero b.metadata.timestamp_start)

unfoldable pub rank_chunks : Bool → List KeptChunk → List KeptChunk
unfolding comes_first sort_by
rank_chunks latest kept = sort_by (comes_first latest) kept

abbrev pub mark_each : List Text → List Text
mark_each [] = []
mark_each (h ∷ hs) = (codes ">>> MATCH — " ++ h) ∷ mark_each hs

module _ (decimal : ℕ → Text) where
  -- The first five hits, and how many there are beyond them.
  unfoldable pub shown_hits : List Text → Text
  unfolding join_with
  shown_hits hits =
      join_with line_feed (mark_each (take 5 hits))
      ++ (if ltb 5 (length hits)
          then codes "\n>>> ... and "
            ++ (decimal (length hits - 5) ++ codes " more matching message(s) in this chunk")
          else [])

  unfoldable pub block_of : KeptChunk → Text
  unfolding shown_hits strip_text
  block_of k =
      if is_empty k.hits
      then strip_text k.document
      else shown_hits k.hits ++ (codes "\n--- full conversation ---\n" ++ strip_text k.document)

  abbrev pub blocks_of : List KeptChunk → List Text
  blocks_of [] = []
  blocks_of (k ∷ ks) = block_of k ∷ blocks_of ks

  -- The texts of the first `limit` chunks, and the number of all.
  unfoldable pub render_kept : Bool → ℕ → List KeptChunk → Text × ℕ
  unfolding block_of rank_chunks join_with
  render_kept latest limit [] = ([], 0)
  render_kept latest limit (k ∷ ks) = (
    join_with separator (blocks_of (take limit (rank_chunks latest (k ∷ ks)))),
    length (rank_chunks latest (k ∷ ks)),
  )

-- The arguments of a search.
pub record Query : Type 0 where
  pub term : Option Text
  pub author : Option Text
  pub channel_name : Option Text
  pub start_date : Option Text
  pub end_date : Option Text
  pub whole_word : Bool

module _ (lib : Library) (collection : Collection) where
  -- What the collection answers to the query; none where it is not reached or raises.
  abbrev pub fetch : Query → List Text → Result Raised (Option Found)
  fetch q excluded = elim collection.connects [
    | false ↦ ok none
    | true ↦
        build_where_clause lib.fromisoformat q.channel_name q.start_date q.end_date excluded
        >>= λ w.
            ok (collection.get w (build_document_filter lib.escape q.term q.author q.whole_word))
  ]

  abbrev pub render_answer : Query → Bool → ℕ → Option Found → Text × ℕ
  render_answer q latest limit none = ([], 0)
  render_answer q latest limit (some a) = render_kept lib.decimal latest limit (
      keep_chunks lib (term_pattern lib (given q.term) q.whole_word)
        (want_author lib (given q.author)) a.documents a.metadatas)

  -- search_literal
  unfoldable pub search_literal : Query → Bool → ℕ → Result Raised (Text × ℕ)
  unfolding build_where_clause build_document_filter keep_chunks render_kept term_regex strip_char
  search_literal q latest limit =
      if is_missing (given q.term) && is_missing (given q.author)
      then ok ([], 0)
      else fetch q [] >>= λ a. ok (render_answer q latest limit a)
