-- ===== src/Web.antt =====
-- web.rs: the HTTP interface.
pub mod Percent
pub mod Escape
pub mod Form
pub mod Provider
pub mod Token
pub mod UserInfo
