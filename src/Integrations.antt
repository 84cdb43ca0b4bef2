-- ===== src/Integrations.antt =====
-- The integrations with other systems.
pub mod Sync
