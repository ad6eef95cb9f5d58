-- ===== src/Vault.antt =====
-- Package vault (vault/*.go): the types that every provider shares.
pub mod Types
pub mod Timestamps
pub mod Extended
pub mod Errors
pub mod Reference
pub mod Interface
pub mod Contract
mod Examples
