-- ===== src/Chains.antt =====
-- lib/chain/ChainAdapter.ts, lib/chain/EVMAdapter.ts and lib/chain/BitcoinAdapter.ts: the chains
-- beside Solana, and which adapter serves which.
pub mod Ids
pub mod Address
pub mod Evm
pub mod Bitcoin
pub mod Factory
mod Laws
pub use Laws.*
