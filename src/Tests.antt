-- ===== src/Tests.antt =====
-- Concrete runs of the theorems, one for each that has hypotheses.
pub mod Data
pub mod Queue
pub mod Errors
pub mod Parts
pub mod Lost
pub mod Words
pub mod Expiry
pub mod Failed
pub mod Cited
pub mod Issued
pub mod Pipeline
pub mod Saved
