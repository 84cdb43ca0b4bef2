-- ===== src/Marketing.antt =====
-- modules/marketing/: the content of campaigns.
pub mod Content
pub mod Compile
