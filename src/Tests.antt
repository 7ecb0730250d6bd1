-- ===== src/Tests.antt =====
-- Concrete inputs, and what the theorems say of them.
pub mod Setup
pub mod Files
pub mod Policy
pub mod Add
pub mod Login
pub mod Config
pub mod Plugins
pub mod Audit
pub mod Tokens
pub mod Providers
pub mod Client
pub mod Logout
pub mod System
