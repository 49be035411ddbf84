-- ===== src/Notice.antt =====
-- lib/notice.ts, lib/noticeAccess.ts, lib/certificate.ts, lib/email.ts and app/n/[token]/page.tsx:
-- the public page of a notice, and what its first view leaves on record.
pub mod Mask
pub mod Access
pub mod Mail
pub mod Page
mod Once
mod Shown
mod Masked
pub use Once.*
pub use Shown.*
pub use Masked.*
