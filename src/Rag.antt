-- ===== src/Rag.antt =====
-- The RAG service (rag/): cutting the archive into chunks.
pub mod Chunking
pub mod Pieces
pub mod Talks
pub mod Lines
pub mod Rendering
pub mod Parsing
pub mod Known
pub mod Reading
pub mod Written
pub mod RoundTrip
pub mod Filters
pub mod Scope
pub mod Context
pub mod Search
pub mod Aggregate
pub mod Meant
pub mod Ranking
pub mod Tallying
pub mod Tally
pub mod Loading
pub mod Ingesting
mod Examples
mod Looking
