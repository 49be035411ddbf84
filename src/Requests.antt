-- ===== src/Requests.antt =====
-- app/api/service-requests: the routes that file a request and that read one.
pub mod Input
pub mod Recipient
pub mod Filing
pub mod Reading
pub mod Outcome
mod Filed
mod Answers
mod Tenants
pub use Outcome.{IsFiled, Says}
pub use Answers.*
pub use Tenants.*
