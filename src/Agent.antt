-- ===== src/Agent.antt =====
-- The agent's loop (internal/agent).
pub mod Guard
