-- ===== src/Index.antt =====
-- The indexes over chunks.
pub mod Varint
pub mod Postings
pub mod Vector
pub mod Hnsw
pub mod Brute
pub mod Ivf
