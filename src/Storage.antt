-- ===== src/Storage.antt =====
-- lib/storage.ts: documents are encrypted and stored as private objects.
mod Crypto
mod Documents
mod RoundTrip
pub use Crypto.*
unfoldable pub use Documents.*
pub use RoundTrip.*
