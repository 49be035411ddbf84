-- ===== src/RateLimit.antt =====
-- The two in-process fixed-window rate limiters: lib/rate-limit.ts (`RateLimit.Fixed`), which never
-- drops a key, and lib/rateLimit.ts (`RateLimit.Lru`), which keeps 10,000 keys at most. Both read
-- the client's address from the proxy headers in the same way (`RateLimit.Client`).
-- Limits are at least 1, as in every call: at 0 the first limiter would report -1 remaining.
pub mod Fixed
pub mod Lru
pub mod Client
mod Window
mod Agreement
pub use Window.*
pub use Agreement.*
