-- ===== src/Rag/Ingesting.antt =====
-- rag/ingest.py, run_ingest: what it stores of an archive.
use local_ai_server.Prelude.{List, [], number_Eq, ◌++◌, ◌∷◌}
use local_ai_server.Rag.Chunking.{Chunk}

abbrev pub concat_batches : List (List Chunk) → List Chunk
concat_batches [] = []
concat_batches (b ∷ bs) = b ++ concat_batches bs
