-- ===== src/Operations.antt =====
-- The operations on the queues.
pub mod Drain
