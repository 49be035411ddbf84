-- ===== src/Form.antt =====
-- app/dashboard: what the pages of the dashboard keep in the browser.
pub mod Intake
pub mod Live
mod Current
mod Onward
mod Accepted
pub use Current.*
pub use Onward.*
pub use Accepted.*
