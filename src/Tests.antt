-- ===== src/Tests.antt =====
-- Runs of the definitions on concrete inputs, and the theorems applied to them.
mod Demo
mod Policies
mod Tokens
mod Calls
mod Browsing
mod Documents
mod Web
mod Settings
mod Google
mod UserInfo
mod SigningKeys
mod Logouts
