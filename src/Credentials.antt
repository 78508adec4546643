-- ===== src/Credentials.antt =====
-- credentials.rs: provider sessions, authorization codes and refresh tokens.
pub mod Types
pub mod Issue
pub mod Exchange
pub mod Refresh
