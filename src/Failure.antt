-- ===== src/Failure.antt =====
-- lib/failure.ts: a request that failed for good is parked, its unit of quota given back, and the
-- transition audited, in one transaction.
mod Handler
mod Atomic
mod Record
unfoldable pub use Handler.*
pub use Atomic.*
pub use Record.*
