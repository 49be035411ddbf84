-- ===== src/Webhook.antt =====
-- app/api/webhooks/stripe/route.ts: paid checkouts arrive as events of Stripe, each with an id.
mod Route
mod Once
mod Active
unfoldable pub use Route.*
pub use Once.*
pub use Active.*
