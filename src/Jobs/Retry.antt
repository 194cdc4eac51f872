-- ===== src/Jobs/Retry.antt =====
-- internal/jobs/retry.go: error classes and backoff.
pub mod Backoff
pub mod Classify
