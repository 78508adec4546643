-- ===== src/Oauth.antt =====
-- oauth.rs: client policy and the validation of authorization requests.
pub mod Types
pub mod Pkce
pub mod Redirect
pub mod Client
pub mod Registry
pub mod Policy
