-- ===== src/Grant.antt =====
-- app/api/admin/comp-grant/route.ts: an administrator grants an organization a subscription.
mod Route
mod Granted
mod Put
mod Tables
unfoldable pub use Route.*
pub use Granted.*
pub use Put.{UniqueSubscriptions, IsGrant, Given}
pub use Tables.*
