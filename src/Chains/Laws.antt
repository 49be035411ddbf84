-- ===== src/Chains/Laws.antt =====
-- lib/chain/ChainAdapter.ts and lib/chain/EVMAdapter.ts: which chains are served, and what a
-- broadcast sends.
use eps_dapp.Base.{
  ℕ, ◌≡◌, refl, true, false, ◌||◌, ◌⊎◌, inl, inr, ap, arith, some, ◌∷◌, Text, is_empty, text_eq_iff,
  codes, ◌++◌, text_eq, starts_with, none, ◌≢◌, Option-cases, List, [],
}
use eps_dapp.Hex.{AreBytes, from_hex-to_hex, to_hex}
use eps_dapp.Json.{is_well_formed}
use eps_dapp.Effects.{Result-cases, World, ok, err, ChainErrorCode, chain_error, evm_transaction}
use eps_dapp.Variables.{text_variable}
use eps_dapp.Chains.Ids.{
  ChainId, ServiceRecord, BroadcastResult, has_chain, evm_chains, bitcoin_chains, same_chain,
  chain_value,
}
use eps_dapp.Chains.Evm.{
  Viem, EvmAdapter, build_memo, memo_calldata, memo_of, is_forbidden, get_wallet, send_memo,
  evm_broadcast, evm_get_memo, endpoint,
}
use eps_dapp.Chains.Factory.{ChainAdapter, get_adapter, chain_of}

-- `getAdapter` answers for the EVM and the Bitcoin chains, with an adapter of the chain that was
-- asked for, and throws for the others.
pub get_adapter_lem :
    (id : ChainId)
    → ((has_chain evm_chains id || has_chain bitcoin_chains id ≡ true)
        × ((a : ChainAdapter) × (get_adapter id ≡ ok a) × (chain_of a ≡ id)))
      ⊎ ((has_chain evm_chains id || has_chain bitcoin_chains id ≡ false)
          × (get_adapter id ≡ err (chain_error ChainErrorCode.not_implemented)))
unfolding get_adapter same_chain chain_value
get_adapter_lem ChainId.solana_mainnet = inr (refl, refl)
get_adapter_lem ChainId.solana_devnet = inr (refl, refl)
get_adapter_lem ChainId.solana_testnet = inr (refl, refl)
get_adapter_lem ChainId.eth_mainnet = inl (refl, (_, refl, refl))
get_adapter_lem ChainId.eth_sepolia = inl (refl, (_, refl, refl))
get_adapter_lem ChainId.polygon = inl (refl, (_, refl, refl))
get_adapter_lem ChainId.polygon_amoy = inl (refl, (_, refl, refl))
get_adapter_lem ChainId.base = inl (refl, (_, refl, refl))
get_adapter_lem ChainId.base_sepolia = inl (refl, (_, refl, refl))
get_adapter_lem ChainId.arb_one = inl (refl, (_, refl, refl))
get_adapter_lem ChainId.arb_sepolia = inl (refl, (_, refl, refl))
get_adapter_lem ChainId.op_mainnet = inl (refl, (_, refl, refl))
get_adapter_lem ChainId.op_sepolia = inl (refl, (_, refl, refl))
get_adapter_lem ChainId.bitcoin_mainnet = inl (refl, (_, refl, refl))
get_adapter_lem ChainId.bitcoin_testnet = inl (refl, (_, refl, refl))
get_adapter_lem ChainId.bitcoin_signet = inl (refl, (_, refl, refl))

-- `Buffer` on UTF-8: what it encodes are bytes, and it reads back a text without lone surrogates.
pub record ReadsUtf8 (viem : Viem) : Type 0 where
  pub utf8_empty : viem.decode_utf8 [] ≡ []
  pub utf8_bytes : (text : Text) → AreBytes (viem.encode_utf8 text)
  pub utf8_round :
      (text : Text) → is_well_formed text ≡ true → viem.decode_utf8 (viem.encode_utf8 text) ≡ text

module _ (viem : Viem) (a : EvmAdapter) where
  -- On a main network, unless ALLOW_EVM_MAINNET is "true", a broadcast fails, and nothing is sent.
  pub broadcast_forbidden :
      (r : ServiceRecord) (w : World)
      → a.config.is_mainnet ≡ true
      → viem.variable (codes "ALLOW_EVM_MAINNET") ≢ some (codes "true")
      → evm_broadcast viem a r w ≡ (err (chain_error ChainErrorCode.forbidden_mainnet), w)
  unfolding evm_broadcast is_forbidden
  broadcast_forbidden r w main missing =
      elim (Option-cases (viem.variable (codes "ALLOW_EVM_MAINNET"))) [
        | inl e ↦ ground (arith, e)
        | inr (v, e) ↦ ground (arith, e, text_eq_iff v (codes "true"))
      ]

  memo_of-calldata :
      (memo : Text)
      → ReadsUtf8 viem
      → is_well_formed memo ≡ true
      → is_empty memo ≡ false
      → memo_of viem (some (memo_calldata viem memo)) ≡ some memo
  unfolding memo_of memo_calldata text_eq starts_with to_hex
  memo_of-calldata memo law h k =
      go (viem.encode_utf8 memo) (law.utf8_bytes memo) (law.utf8_round memo h)
    where
      go :
          (bytes : List ℕ)
          → AreBytes bytes
          → viem.decode_utf8 bytes ≡ memo
          → memo_of viem (some (codes "0x" ++ to_hex bytes)) ≡ some memo
      go [] b e = absurd (ground (arith, law.utf8_empty))
      go (x ∷ bytes) b e = rw (from_hex-to_hex (x ∷ bytes) b) (ap some e)

  send_memo_lem :
      (memo : Text) (wallet : Text × Text) (w : World) (result : BroadcastResult)
      → viem.variable (codes "EVM_REGISTRY_ADDRESS") ≡ none
      → (send_memo viem a memo wallet w).0 ≡ ok result
      → (send_memo viem a memo wallet w).1.outbox
        ≡ evm_transaction wallet.1 (memo_calldata viem memo) ∷ w.outbox
  unfolding send_memo
  send_memo_lem memo wallet w result k e = ground (arith, k)

  sent_memo :
      (r : ServiceRecord) (w : World) (result : BroadcastResult)
      → viem.variable (codes "EVM_REGISTRY_ADDRESS") ≡ none
      → (evm_broadcast viem a r w).0 ≡ ok result
      → (address : Text) × ((evm_broadcast viem a r w).1.outbox
          ≡ evm_transaction address (memo_calldata viem (build_memo r)) ∷ w.outbox)
  unfolding evm_broadcast get_wallet
  sent_memo r w result k e =
      elim (Result-cases
        (viem.address_of_key (text_variable viem.variable "EVM_APP_WALLET_PRIVATE_KEY"))) [
          | inl (address, found) ↦ (
            address,
            ground (
              arith,
              found,
              send_memo_lem (build_memo r)
                  (text_variable viem.variable "EVM_APP_WALLET_PRIVATE_KEY", address) w result k,
            ),
          )
          | inr other ↦ absurd (ground (arith, other))
        ]

  -- A broadcast that returns, where no registry is set, has sent one transaction, from which
  -- `getMemo` reads the memo of the record, whenever the transaction is found with its calldata.
  -- The memo has no lone surrogate.
  pub broadcast-anchors :
      (r : ServiceRecord) (w later : World) (result : BroadcastResult)
      → ReadsUtf8 viem
      → is_well_formed (build_memo r) ≡ true
      → viem.variable (codes "EVM_REGISTRY_ADDRESS") ≡ none
      → (evm_broadcast viem a r w).0 ≡ ok result
      → viem.transaction_input later.tick (endpoint viem a) result.tx_id
        ≡ ok (some (memo_calldata viem (build_memo r)))
      → ((address : Text) × ((evm_broadcast viem a r w).1.outbox
            ≡ evm_transaction address (memo_calldata viem (build_memo r)) ∷ w.outbox))
        × ((evm_get_memo viem a result.tx_id later).0 ≡ ok (some (build_memo r)))
  unfolding evm_get_memo
  broadcast-anchors r w later result law h k e read = (
    sent_memo r w result k e,
    ground (arith, read, memo_of-calldata (build_memo r) law h (unfold build_memo in refl)),
  )
