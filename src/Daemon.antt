-- ===== src/Daemon.antt =====
-- Package internal/daemon: the server that owns the encrypted store.
pub mod Protocol
pub mod Session
pub mod Routes
pub mod Cases
pub mod Pending
pub mod Unlocking
pub mod AutoLock
pub mod Guarded
pub mod Deadlines
pub mod Lifecycle
pub mod Wire
pub mod Ending
pub mod Secrets
pub mod Bulk
pub mod Guards
pub mod Locking
pub mod Importing
mod Examples
mod RunExamples
