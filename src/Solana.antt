-- ===== src/Solana.antt =====
-- The Solana side: recipient addresses (lib/solana/validate-address.ts) and the adapter
-- (lib/chain/solana.ts), over the web3.js library, which is a parameter.
mod Cluster
mod Calls
mod Laws
pub mod Builder
pub use Cluster.*
unfoldable pub use Calls.*
pub use Laws.*
