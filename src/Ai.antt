-- ===== src/Ai.antt =====
-- The tools that an assistant may run.
pub mod Tools
