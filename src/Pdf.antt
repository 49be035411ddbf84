-- ===== src/Pdf.antt =====
-- lib/certificate-pdf.ts: the certificate's page, over pdf-lib.
pub mod Wrap
pub mod Writer
pub mod Render
mod Kept
mod Wrapped
mod Placed
mod Plain
mod PlainPage
mod Bounded
mod Shown
pub use Kept.*
pub use Wrapped.*
pub use Plain.*
pub use Bounded.*
pub use Shown.*
