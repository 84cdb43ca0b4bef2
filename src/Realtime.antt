-- ===== src/Realtime.antt =====
-- modules/realtime: the connections of the event stream and what is published to them.
pub mod Registry
pub mod Protocol
pub mod Hub
pub mod Client
pub mod Store
pub mod Route
