-- ===== src/Quota.antt =====
-- lib/quota.ts: the meter of fulfilments that an organization's subscription allows in a period.
mod Meter
mod Spec
mod Consume
mod Bounds
mod Restore
unfoldable pub use Meter.*
pub use Spec.*
pub use Restore.*
pub use Consume.*
pub use Bounds.*
