-- ===== src/Diagnosis.antt =====
-- Diagnosis runs and attempts (internal/diagnosis).
pub mod State
