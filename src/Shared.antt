-- ===== src/Shared.antt =====
-- The services under modules/shared/.
pub mod Idempotency
