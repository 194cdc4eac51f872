-- ===== src/Snapshot.antt =====
-- The immutable sources of a repository: internal/platform/snapshotstore.
pub mod Files
