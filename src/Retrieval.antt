-- ===== src/Retrieval.antt =====
-- Retrieval of code for the agent (internal/retrieval).
pub mod Tokenizer
pub mod Bm25
