-- ===== src/Providers.antt =====
-- modules/providers/: the messaging providers of a tenant, their configurations and credentials.
pub mod Schema
pub mod Envelope
pub mod Credentials
pub mod Endpoint
pub mod Normalize
pub mod Service
