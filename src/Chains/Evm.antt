-- ===== src/Chains/Evm.antt =====
-- lib/chain/EVMAdapter.ts: `EVMAdapter`. viem and the environment variables are parameters. The
-- clients that it builds when they are first wanted are the same on every call.
use eps_dapp.Base.{
  ℕ, ◌+◌, Bool, true, false, not, ◌&&◌, ◌||◌, Option, none, some, List, [], ◌∷◌, ◌++◌, ◌==◌, drop,
  or_else, if◌then◌else◌, Text, codes, text_eq, starts_with, is_empty,
}
use eps_dapp.Hex.{to_hex, from_hex}
use eps_dapp.Variables.{Variables, text_variable}
use eps_dapp.Json.{json_field, json_object}
use eps_dapp.Effects.{
  Action, Result, ok, err, crashed, ChainErrorCode, chain_error, ◌>>=◌, pure, throw, call, catch,
  evm_transaction,
}
use eps_dapp.Chains.Ids.{ChainId, ServiceRecord, BroadcastResult, ChainConfirmation}

pub record Receipt : Type 0 where
  pub block_hash : Text
  pub block_number : ℕ

pub record Viem : Type 0 where
  -- `process.env[name]`
  pub variable : Variables
  -- `privateKeyToAccount(key).address`, which throws on a malformed key
  pub address_of_key : Text → Result Text
  -- `encodeFunctionData` of `recordDelivery(memo)`
  pub encode_call : Text → Text
  pub encode_utf8 : Text → List ℕ
  pub decode_utf8 : List ℕ → Text
  -- endpoint, key, recipient and data, to a hash
  pub send_transaction : ℕ → Text → Text → Text → Text → Result Text
  -- endpoint and hash, to the receipt, the block's time, and the transaction's input (none if there
  -- is no transaction)
  pub wait_for_receipt : ℕ → Text → Text → Result Receipt
  pub block_timestamp : ℕ → Text → Text → Result ℕ
  pub transaction_input : ℕ → Text → Text → Result (Option Text)

pub record ChainConfig : Type 0 where
  pub rpc_env_var : Text
  pub fallback_rpc : Text
  pub is_mainnet : Bool

-- `CHAIN_CONFIG[chainId]`, without viem's own record of the chain.
unfoldable pub chain_config : ChainId → Option ChainConfig
chain_config ChainId.eth_mainnet = some (record {
  rpc_env_var = codes "EVM_RPC_ETH_MAINNET";
  fallback_rpc = codes "https://eth.llamarpc.com";
  is_mainnet = true;
})
chain_config ChainId.eth_sepolia = some (record {
  rpc_env_var = codes "EVM_RPC_ETH_SEPOLIA";
  fallback_rpc = codes "https://rpc.sepolia.org";
  is_mainnet = false;
})
chain_config ChainId.polygon = some (record {
  rpc_env_var = codes "EVM_RPC_POLYGON";
  fallback_rpc = codes "https://polygon-rpc.com";
  is_mainnet = true;
})
chain_config ChainId.polygon_amoy = some (record {
  rpc_env_var = codes "EVM_RPC_POLYGON_AMOY";
  fallback_rpc = codes "https://rpc-amoy.polygon.technology";
  is_mainnet = false;
})
chain_config ChainId.base = some (record {
  rpc_env_var = codes "EVM_RPC_BASE";
  fallback_rpc = codes "https://mainnet.base.org";
  is_mainnet = true;
})
chain_config ChainId.base_sepolia = some (record {
  rpc_env_var = codes "EVM_RPC_BASE_SEPOLIA";
  fallback_rpc = codes "https://sepolia.base.org";
  is_mainnet = false;
})
chain_config ChainId.arb_one = some (record {
  rpc_env_var = codes "EVM_RPC_ARB_ONE";
  fallback_rpc = codes "https://arb1.arbitrum.io/rpc";
  is_mainnet = true;
})
chain_config ChainId.arb_sepolia = some (record {
  rpc_env_var = codes "EVM_RPC_ARB_SEPOLIA";
  fallback_rpc = codes "https://sepolia-rollup.arbitrum.io/rpc";
  is_mainnet = false;
})
chain_config ChainId.op_mainnet = some (record {
  rpc_env_var = codes "EVM_RPC_OP_MAINNET";
  fallback_rpc = codes "https://mainnet.optimism.io";
  is_mainnet = true;
})
chain_config ChainId.op_sepolia = some (record {
  rpc_env_var = codes "EVM_RPC_OP_SEPOLIA";
  fallback_rpc = codes "https://sepolia.optimism.io";
  is_mainnet = false;
})
chain_config _ = none

pub record EvmAdapter : Type 0 where
  pub chain_id : ChainId
  pub config : ChainConfig

-- The constructor.
unfoldable pub evm_adapter : ChainId → Result EvmAdapter
unfolding chain_config
evm_adapter id = elim (chain_config id) [
  | some config ↦ ok (record { chain_id = id; config = config })
  | none ↦ err (chain_error ChainErrorCode.not_implemented)
]

-- `JSON.stringify({ eps: 'v1', ...record })` (`buildMemo`).
unfoldable pub build_memo : ServiceRecord → Text
build_memo r = json_object (
    json_field "eps" (codes "v1")
    ∷ json_field "deliveryId" r.delivery_id
    ∷ json_field "documentHash" r.document_hash
    ∷ json_field "caseRef" r.case_ref
    ∷ json_field "servedTo" r.served_to
    ∷ json_field "servedBy" r.served_by
    ∷ json_field "servedAt" r.served_at
    ∷ [])

-- The calldata of a self-transfer, and the text that `getMemo` makes of a transaction's input.
module _ (viem : Viem) where
  unfoldable pub memo_calldata : Text → Text
  memo_calldata memo = codes "0x" ++ to_hex (viem.encode_utf8 memo)

  abbrev pub strip_0x : Text → Text
  strip_0x input = if starts_with (codes "0x") input then drop 2 input else input

  unfoldable pub memo_of : Option Text → Option Text
  unfolding starts_with text_eq
  memo_of none = none
  memo_of (some input) =
      if is_empty input || text_eq input (codes "0x")
      then none
      else some (viem.decode_utf8 (from_hex (strip_0x input)))

  -- `process.env[rpcEnvVar] ?? fallbackRpc`.
  abbrev pub endpoint : EvmAdapter → Text
  endpoint a = or_else (viem.variable a.config.rpc_env_var) a.config.fallback_rpc

  -- The guard of `broadcast`.
  unfoldable pub is_forbidden : EvmAdapter → Bool
  unfolding text_eq
  is_forbidden a =
      a.config.is_mainnet
      && not (text_eq (text_variable viem.variable "ALLOW_EVM_MAINNET") (codes "true"))

  -- `getWalletClient()`: the app's key and the address of its account.
  unfoldable pub get_wallet : Action (Text × Text)
  get_wallet w =
      let key = text_variable viem.variable "EVM_APP_WALLET_PRIVATE_KEY" in
      if is_empty key
      then (err (chain_error ChainErrorCode.broadcast_failed), w)
      else elim (viem.address_of_key key) [
        | ok address ↦ (ok (key, address), w)
        | err e ↦ (err e, w)
        | crashed ↦ (crashed, w)
      ]

  -- `wc.sendTransaction`: the transaction is on its way, whatever comes back.
  abbrev pub send_evm : EvmAdapter → Text → Text → Text → Action Text
  send_evm a key to calldata w = (
    viem.send_transaction w.tick (endpoint a) key to calldata,
    record w { tick = w.tick + 1; outbox = evm_transaction to calldata ∷ w.outbox },
  )

  -- The body of the `try`: the registry if there is one, the app's own account if not.
  unfoldable pub send_memo : EvmAdapter → Text → Text × Text → Action BroadcastResult
  send_memo a memo wallet = do
    let registry = text_variable viem.variable "EVM_REGISTRY_ADDRESS"
    hash ←
        if is_empty registry
        then send_evm a wallet.0 wallet.1 (memo_calldata memo)
        else send_evm a wallet.0 registry (viem.encode_call memo)
    pure (record { tx_id = hash; chain_id = a.chain_id })

  -- `broadcast(record)`.
  unfoldable pub evm_broadcast : EvmAdapter → ServiceRecord → Action BroadcastResult
  evm_broadcast a r =
      if is_forbidden a
      then throw (chain_error ChainErrorCode.forbidden_mainnet)
      else (get_wallet >>= λ wallet.
          catch (send_memo a (build_memo r) wallet)
            (λ e. throw (chain_error ChainErrorCode.broadcast_failed)))

  -- `getMemo(txId)`.
  unfoldable pub evm_get_memo : EvmAdapter → Text → Action (Option Text)
  evm_get_memo a tx_id =
      catch
        (do input ← call (λ t. viem.transaction_input t (endpoint a) tx_id); pure (memo_of input))
        (λ e. pure none)

  abbrev pub some_time : ℕ → Option ℕ
  some_time t = if t == 0 then none else some t

  -- `confirm(txId)`.
  unfoldable pub evm_confirm : EvmAdapter → Text → Action ChainConfirmation
  evm_confirm a tx_id =
      catch
        (do
          receipt ← call (λ t. viem.wait_for_receipt t (endpoint a) tx_id)
          timestamp ← call (λ t. viem.block_timestamp t (endpoint a) receipt.block_hash)
          memo ← evm_get_memo a tx_id
          pure (record {
            tx_id = tx_id;
            chain_id = a.chain_id;
            block_number = receipt.block_number;
            block_timestamp = some_time timestamp;
            confirmed_memo = memo;
          }))
        (λ e. throw (chain_error ChainErrorCode.confirmation_failed))
