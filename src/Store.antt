-- ===== src/Store.antt =====
-- The corpus in PostgreSQL, and its ingestion.
pub mod Corpus
pub mod Ingest
mod Examples
