-- ===== src/Tests.antt =====
-- Runs of the code on concrete data, and the theorems on concrete instances.
mod Calendar
mod RateLimit
mod Quota
mod Solana
mod Failure
mod Worker
mod Intake
mod Webhook
mod Grant
mod Services
mod Requests
mod Notice
mod Demo
mod Chains
mod Hedera
mod Certificate
mod Pdf
mod System
mod Form
mod Picture
