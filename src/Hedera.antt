-- ===== src/Hedera.antt =====
-- lib/hedera: the consensus messages and the proof-of-service tokens.
pub mod Sdk
pub mod Service
pub mod Transfer
pub mod Tasks
pub mod Routes
mod Isolation
mod Metadata
pub use Isolation.*
pub use Metadata.*
