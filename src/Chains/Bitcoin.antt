-- ===== src/Chains/Bitcoin.antt =====
-- lib/chain/BitcoinAdapter.ts: `BitcoinAdapter`, whose calls are not implemented.
use eps_dapp.Base.{Option, if◌then◌else◌, Text}
use eps_dapp.Effects.{Action, Result, ok, err, ChainErrorCode, chain_error, throw}
use eps_dapp.Chains.Ids.{
  ChainId, ServiceRecord, BroadcastResult, ChainConfirmation, bitcoin_chains, has_chain,
}

pub record BitcoinAdapter : Type 0 where
  pub bitcoin_chain : ChainId

-- The constructor.
unfoldable pub bitcoin_adapter : ChainId → Result BitcoinAdapter
bitcoin_adapter id =
    if has_chain bitcoin_chains id
    then ok (record { bitcoin_chain = id })
    else err (chain_error ChainErrorCode.not_implemented)

unfoldable pub bitcoin_broadcast : BitcoinAdapter → ServiceRecord → Action BroadcastResult
bitcoin_broadcast a r = throw (chain_error ChainErrorCode.not_implemented)

unfoldable pub bitcoin_confirm : BitcoinAdapter → Text → Action ChainConfirmation
bitcoin_confirm a tx_id = throw (chain_error ChainErrorCode.not_implemented)

unfoldable pub bitcoin_get_memo : BitcoinAdapter → Text → Action (Option Text)
bitcoin_get_memo a tx_id = throw (chain_error ChainErrorCode.not_implemented)
