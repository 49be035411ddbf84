-- ===== src/Chains/Ids.antt =====
-- lib/chain/ChainAdapter.ts: `ServiceRecord`, the results, `ChainId`, and the two sets of chains.
use eps_dapp.Base.{ℕ, Bool, Option, List, [], ◌∷◌, any, Text, codes, text_eq}

pub record ServiceRecord : Type 0 where
  pub delivery_id : Text
  pub document_hash : Text
  pub case_ref : Text
  pub served_to : Text
  pub served_by : Text
  pub served_at : Text

pub data ChainId : Type 0 where
  solana_mainnet solana_devnet solana_testnet : ChainId
  eth_mainnet eth_sepolia polygon polygon_amoy base base_sepolia : ChainId
  arb_one arb_sepolia op_mainnet op_sepolia : ChainId
  bitcoin_mainnet bitcoin_testnet bitcoin_signet : ChainId

-- The value of the enumeration, by which chains are told apart.
unfoldable pub chain_value : ChainId → Text
chain_value ChainId.solana_mainnet = codes "solana-mainnet"
chain_value ChainId.solana_devnet = codes "solana-devnet"
chain_value ChainId.solana_testnet = codes "solana-testnet"
chain_value ChainId.eth_mainnet = codes "eip155:1"
chain_value ChainId.eth_sepolia = codes "eip155:11155111"
chain_value ChainId.polygon = codes "eip155:137"
chain_value ChainId.polygon_amoy = codes "eip155:80002"
chain_value ChainId.base = codes "eip155:8453"
chain_value ChainId.base_sepolia = codes "eip155:84532"
chain_value ChainId.arb_one = codes "eip155:42161"
chain_value ChainId.arb_sepolia = codes "eip155:421614"
chain_value ChainId.op_mainnet = codes "eip155:10"
chain_value ChainId.op_sepolia = codes "eip155:11155420"
chain_value ChainId.bitcoin_mainnet = codes "btc-mainnet"
chain_value ChainId.bitcoin_testnet = codes "btc-testnet"
chain_value ChainId.bitcoin_signet = codes "btc-signet"

-- `a === b` on chains.
unfoldable pub same_chain : ChainId → ChainId → Bool
unfolding chain_value text_eq
same_chain a b = text_eq (chain_value a) (chain_value b)

abbrev pub evm_chains : List ChainId
evm_chains =
    ChainId.eth_mainnet ∷ ChainId.eth_sepolia ∷ ChainId.polygon ∷ ChainId.polygon_amoy
    ∷ ChainId.base ∷ ChainId.base_sepolia ∷ ChainId.arb_one ∷ ChainId.arb_sepolia
    ∷ ChainId.op_mainnet ∷ ChainId.op_sepolia ∷ []

abbrev pub bitcoin_chains : List ChainId
bitcoin_chains = ChainId.bitcoin_mainnet ∷ ChainId.bitcoin_testnet ∷ ChainId.bitcoin_signet ∷ []

-- `set.has(id)`.
abbrev pub has_chain : List ChainId → ChainId → Bool
has_chain set id = any (same_chain id) set

pub record BroadcastResult : Type 0 where
  pub tx_id : Text
  pub chain_id : ChainId

pub record ChainConfirmation : Type 0 where
  pub tx_id : Text
  pub chain_id : ChainId
  pub block_number : ℕ
  pub block_timestamp : Option ℕ
  pub confirmed_memo : Option Text
