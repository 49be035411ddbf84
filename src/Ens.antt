-- ===== src/Ens.antt =====
-- lib/ens/ENSResolver.ts, and the routes on the names of the Ethereum Name Service (ENS).
pub mod Resolver
pub mod Routes
mod Laws
pub use Laws.*
