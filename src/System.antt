-- ===== src/System.antt =====
-- The program as a whole: what its operations do to the table of requests, in any order.
pub mod Rules
pub mod Proofs
pub mod Intake
pub mod Filing
pub mod Delivery
pub mod Claiming
pub mod Polling
pub mod Views
pub mod Certificates
pub mod Billing
pub mod Reached
