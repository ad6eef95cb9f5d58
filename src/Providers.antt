-- ===== src/Providers.antt =====
-- The built-in providers (providers/*).
pub mod Memory
pub mod Env
pub mod File
pub mod Sql
mod Examples
