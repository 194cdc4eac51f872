-- ===== src/Jobs.antt =====
-- The durable job queue (internal/jobs): jobs, their database operations, and the worker's policy.
pub mod Model
pub mod Db
pub mod Rows
pub mod Claim
pub mod Revision
pub mod Business
pub mod Finalize
pub mod Reap
pub mod Requeue
pub mod Worker
pub mod Lifecycle
pub mod Retry
