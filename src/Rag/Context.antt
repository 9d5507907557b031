-- ===== src/Rag/Context.antt =====
-- rag/retrieve.py: build_lore_context and format_context_block. ChromaDB and the embedding model
-- are arguments.
use local_ai_server.Prelude.{
  Bool, List, Option, [], false, length, list_Eq, none, number_Eq, some, text_Eq, true, ℕ, ◌∷◌,
}
use local_ai_server.Prelude.Texts.{codes}
use local_ai_server.Prelude.Result.{Result, ok, ◌>>=◌}
use local_ai_server.Rag.Chunking.{Text}
use local_ai_server.Rag.Lines.{join_with, strip_text}
use local_ai_server.Rag.Rendering.{Metadata}
use local_ai_server.Rag.Filters.{Clause, Raised, Where, build_where_clause}

-- What the code takes from Python: `search pattern text` is re.compile(pattern).search(text).
pub record Library : Type 0 where
  pub casefold : Text → Text
  pub escape : Text → Text
  pub search : Text → Text → Bool
  pub fromisoformat : Text → Option ℕ
  pub decimal : ℕ → Text
  pub repr : Text → Text
  pub month : ℕ → Text

-- The answer to a query: the documents and their metadata, which may be missing.
pub record Found : Type 0 where
  pub documents : List Text
  pub metadatas : List (Option Metadata)

-- ChromaDB: whether it is reached, and what it answers; none is an exception.
pub record Collection : Type 0 where
  pub connects : Bool
  pub get : Option (Where Clause) → Option (Where Text) → Option Found

abbrev pub separator : Text
separator = codes "\n\n---\n\n"

abbrev pub strip_docs : List Text → List Text
strip_docs [] = []
strip_docs (doc ∷ docs) = strip_text doc ∷ strip_docs docs

-- format_context_block
unfoldable pub format_context_block : List Text → Text
unfolding strip_text join_with
format_context_block docs = join_with separator (strip_docs docs)

abbrev pub context_of : Option (List Text) → Text × ℕ
context_of none = ([], 0)
context_of (some []) = ([], 0)
context_of (some (doc ∷ docs)) = (format_context_block (doc ∷ docs), length (doc ∷ docs))

-- build_lore_context, with the embedding of the query and what the collection finds for it
unfoldable pub build_lore_context :
    {V : Type 0}
    → Library
    → Bool
    → (Text → Option V)
    → (V → ℕ → Option (Where Clause) → Option (List Text))
    → Text
    → ℕ
    → Option Text
    → Option Text
    → Option Text
    → Result Raised (Text × ℕ)
unfolding build_where_clause format_context_block
build_lore_context lib false encode query text top_k channel start end = ok ([], 0)
build_lore_context lib true encode query text top_k channel start end = elim (encode text) [
  | none ↦ ok ([], 0)
  | some v ↦ build_where_clause lib.fromisoformat channel start end [] >>= λ w.
      ok (context_of (query v top_k w))
]
