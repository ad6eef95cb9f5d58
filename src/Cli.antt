-- ===== src/Cli.antt =====
-- Package main of cmd/omnivault: the command line.
pub mod Flags
pub mod Expiring
pub mod Console
pub mod Secrets
pub mod Sessions
pub mod Worlds
pub mod Confirmed
pub mod Passwords
pub mod Piped
pub mod Transfers
pub mod PipedImport
pub mod Daemons
pub mod Usage
pub mod Main
pub mod Offline
pub mod SetAndGet
pub mod WholeProgram
mod WholeExamples
mod Examples
mod CommandExamples
