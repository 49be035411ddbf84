-- ===== src/Worker.antt =====
-- worker/index.ts and worker/process.ts: the job loop, and the delivery of one request.
mod Delivery
mod Loop
mod Process
mod Confirm
mod Claim
mod Settle
mod Drain
unfoldable pub use Delivery.*
unfoldable pub use Loop.*
pub use Claim.*
pub use Process.*
pub use Confirm.*
pub use Settle.*
pub use Drain.*
