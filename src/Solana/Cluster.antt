-- ===== src/Solana/Cluster.antt =====
-- What the code uses of @solana/web3.js, bs58 and Buffer, and the two environment variables that it
-- reads. Every network call may answer differently at each tick.
use eps_dapp.Base.{ℕ, Bool, Option, List, Text, ◌≡◌, none}
use eps_dapp.Effects.{Result}
use mathlib.Core.List.{Memᴰ}

-- An instruction of a transaction's message; its data as base58 text or as bytes.
pub record Instruction : Type 0 where
  pub program_id_index : ℕ
  pub data_units : List ℕ

-- The message of a transaction: the legacy shape has `account_keys` and `instructions`, the v0
-- shape `static_account_keys` and `compiled_instructions`. A key is its bytes.
pub record Message : Type 0 where
  pub account_keys : Option (List (List ℕ))
  pub static_account_keys : Option (List (List ℕ))
  pub instructions : Option (List Instruction)
  pub compiled_instructions : Option (List Instruction)

-- The answer of `getTransaction`.
pub record Finalized : Type 0 where
  pub slot : ℕ
  pub block_time : Option ℕ
  pub message : Option Message

pub record Rpc : Type 0 where
  -- `process.env.SOLANA_RPC_URL` and `process.env.SOLANA_SIGNER_KEYPAIR`
  pub rpc_url : Option Text
  pub signer_keypair : Option Text
  -- `Keypair.fromSecretKey(bs58.decode(secret))`, which throws on a malformed key
  pub decode_keypair : Text → Result (List ℕ)
  -- `new PublicKey(addr)`: none where it throws
  pub parse_key : Text → Option (List ℕ)
  pub is_on_curve : List ℕ → Bool
  pub memo_program_id : List ℕ
  pub decode_base58 : Text → List ℕ
  pub decode_utf8 : List ℕ → Text
  pub rent_minimum : ℕ → Result ℕ
  -- from, to, lamports, memo
  pub send_transaction : ℕ → List ℕ → List ℕ → ℕ → Text → Result Text
  pub confirm_transaction : ℕ → Text → Result (Unit {0})
  pub get_transaction : ℕ → Text → Result (Option Finalized)

-- A public key is base58 text, and the digit 0 is not in that alphabet.
pub record RejectsZero (rpc : Rpc) : Type 0 where
  pub zero_refused : (addr : Text) → Memᴰ b'0' addr → rpc.parse_key addr ≡ none
