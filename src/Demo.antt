-- ===== src/Demo.antt =====
-- app/api/demo: the two routes of the demonstration mode.
pub mod Skip
pub mod Fulfill
mod Refines
mod Fulfilled
pub use Refines.*
pub use Fulfilled.*
