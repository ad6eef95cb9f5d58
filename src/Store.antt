-- ===== src/Store.antt =====
-- Package internal/store: the encrypted store of the daemon.
pub mod Crypto
pub mod Disk
pub mod Operations
pub mod Contents
pub mod Sessions
pub mod Restart
pub mod Chains
pub mod Password
pub mod Locking
pub mod Provider
pub mod Rekey
pub mod Rotation
pub mod Failures
pub mod Listing
pub mod Consistency
pub mod Steps
pub mod Toy
mod Examples
mod ChangeExamples
