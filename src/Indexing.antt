-- ===== src/Indexing.antt =====
-- Indexing of a snapshot's files (internal/indexing).
pub mod Chunk
