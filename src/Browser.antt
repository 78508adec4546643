-- ===== src/Browser.antt =====
-- browser.rs: the browser's part of an authorization, from the request to the code.
pub mod Types
pub mod Rows
pub mod Google
pub mod Login
pub mod Consent
pub mod Ended
pub mod Growth
pub mod Approval
pub mod Once
pub mod Revalidation
pub mod Consented
