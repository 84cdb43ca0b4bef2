-- ===== src/Inbox.antt =====
-- The inbound side: what the channels send is taken in, and made into conversations and messages.
pub mod Processor
pub mod Intake
