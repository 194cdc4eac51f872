-- ===== src/Pipeline.antt =====
-- The analysis pipeline: a revision is prepared in three stages (snapshot, code index, retrieval
-- index), each a job of the queue over a row of its own, and a READY revision is resolved to the
-- rows that its diagnoses read.
pub mod Model
pub mod Store
pub mod Builds
pub mod Retry
pub mod Resolver
pub mod Finalize
pub mod Symbols
pub mod CodeIndex
