-- ===== src/Chains/Factory.antt =====
-- lib/chain/ChainAdapter.ts: the interface `ChainAdapter` and `getAdapter`.
use eps_dapp.Base.{Bool, Option, if◌then◌else◌, Text}
use eps_dapp.Effects.{Action, Result, ok, err, crashed, ChainErrorCode, chain_error}
use eps_dapp.Chains.Ids.{
  ChainId, ServiceRecord, BroadcastResult, ChainConfirmation, bitcoin_chains, evm_chains, has_chain,
}
use eps_dapp.Chains.Address.{is_evm_address, is_bitcoin_address}
use eps_dapp.Chains.Evm.{Viem, EvmAdapter, evm_adapter, evm_broadcast, evm_confirm, evm_get_memo}
use eps_dapp.Chains.Bitcoin.{
  BitcoinAdapter, bitcoin_adapter, bitcoin_broadcast, bitcoin_confirm, bitcoin_get_memo,
}

pub data ChainAdapter : Type 0 where
  evm : EvmAdapter → ChainAdapter
  bitcoin : BitcoinAdapter → ChainAdapter

abbrev pub map_ok : {A B : Type 0} → (A → B) → Result A → Result B
map_ok f (ok a) = ok (f a)
map_ok f (err e) = err e
map_ok f crashed = crashed

unfoldable pub get_adapter : ChainId → Result ChainAdapter
unfolding bitcoin_adapter evm_adapter
get_adapter id =
    if has_chain bitcoin_chains id
    then map_ok bitcoin (bitcoin_adapter id)
    else if has_chain evm_chains id
    then map_ok evm (evm_adapter id)
    else err (chain_error ChainErrorCode.not_implemented)

-- `adapter.chainId` and `adapter.validateAddress(address)`.
abbrev pub chain_of : ChainAdapter → ChainId
chain_of (evm a) = a.chain_id
chain_of (bitcoin a) = a.bitcoin_chain

unfoldable pub validate_address : ChainAdapter → Text → Bool
unfolding is_evm_address is_bitcoin_address
validate_address (evm a) = is_evm_address
validate_address (bitcoin a) = is_bitcoin_address

module _ (viem : Viem) where
  unfoldable pub broadcast_record : ChainAdapter → ServiceRecord → Action BroadcastResult
  unfolding evm_broadcast bitcoin_broadcast
  broadcast_record (evm a) = evm_broadcast viem a
  broadcast_record (bitcoin a) = bitcoin_broadcast a

  unfoldable pub confirm_record : ChainAdapter → Text → Action ChainConfirmation
  unfolding evm_confirm bitcoin_confirm
  confirm_record (evm a) = evm_confirm viem a
  confirm_record (bitcoin a) = bitcoin_confirm a

  unfoldable pub record_memo : ChainAdapter → Text → Action (Option Text)
  unfolding evm_get_memo bitcoin_get_memo
  record_memo (evm a) = evm_get_memo viem a
  record_memo (bitcoin a) = bitcoin_get_memo a
