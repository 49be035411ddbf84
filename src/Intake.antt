-- ===== src/Intake.antt =====
-- lib/intake.ts: a request is staged, with its quota, its document and its audit row, in one
-- transaction.
mod Stage
mod Atomic
unfoldable pub use Stage.*
pub use Atomic.*
