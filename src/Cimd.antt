-- ===== src/Cimd.antt =====
-- cimd.rs: client identifier metadata documents.
pub mod Binding
pub mod Address
pub mod Ttl
pub mod Document
pub mod ClientId
pub mod Fetch
