-- ===== src/Solana/Calls.antt =====
-- `assertValidRecipient`, `assertNotMainnetUrl`, `decodeMemo`, `SolanaAdapter`, `getSolanaAdapter`
-- and `getRentExemptMinimum`.
use eps_dapp.Base.{
  ℕ, zero, suc, ◌+◌, Bool, false, Option, none, some, List, [], ◌∷◌, ◌++◌, if◌then◌else◌, Text,
  codes, text_eq, includes, to_lower, is_empty,
}
use eps_dapp.Effects.{
  Action, Result, ok, err, malformed, off_curve, ◌>>=◌, ◌>>◌, pure, throw, call, invalid_recipient,
  mainnet_forbidden, not_set,
}
use eps_dapp.Solana.Cluster.{Rpc, Instruction, Message, Finalized}

module _ (rpc : Rpc) where
  curve_checked : Text → Option (List ℕ) → Result (List ℕ)
  curve_checked addr none = err (invalid_recipient addr malformed)
  curve_checked addr (some key) =
      if rpc.is_on_curve key then ok key else err (invalid_recipient addr off_curve)

  -- `assertValidRecipient(addr)`.
  unfoldable pub assert_valid_recipient : Text → Result (List ℕ)
  unfolding curve_checked
  assert_valid_recipient addr = curve_checked addr (rpc.parse_key addr)

-- `assertNotMainnetUrl(rpcUrl)`.
unfoldable pub is_mainnet_url : Text → Bool
unfolding to_lower includes
is_mainnet_url url = includes (codes "mainnet") (to_lower url)

abbrev pub lift : {A : Type 0} → Result A → Action A
lift r w = (r, w)

unfoldable pub assert_not_mainnet_url : Text → Action (Unit {0})
assert_not_mainnet_url url = if is_mainnet_url url then throw mainnet_forbidden else pure tt

-- `keys[i]`.
abbrev pub key_at : List (List ℕ) → ℕ → Option (List ℕ)
key_at [] i = none
key_at (k ∷ keys) zero = some k
key_at (k ∷ keys) (suc i) = key_at keys i

module _ (rpc : Rpc) where
  abbrev pub is_memo_key : Option (List ℕ) → Bool
  is_memo_key none = false
  is_memo_key (some key) = text_eq key rpc.memo_program_id

  -- `isMemo(programIdIndex)`.
  abbrev pub is_memo : List (List ℕ) → ℕ → Bool
  is_memo keys i = is_memo_key (key_at keys i)

  -- The loop over instructions whose data `read` decodes.
  unfoldable pub first_memo : List (List ℕ) → (List ℕ → List ℕ) → List Instruction → Option Text
  unfolding text_eq
  first_memo keys read [] = none
  first_memo keys read (ix ∷ ixs) =
      if is_memo keys ix.program_id_index
      then some (rpc.decode_utf8 (read ix.data_units))
      else first_memo keys read ixs

  memo_in : List (List ℕ) → (List ℕ → List ℕ) → Option (List Instruction) → Option Text
  memo_in keys read none = none
  memo_in keys read (some ixs) = first_memo keys read ixs

  abbrev pub first_of_two : Option Text → Option Text → Option Text
  first_of_two (some memo) later = some memo
  first_of_two none later = later

  -- `m.accountKeys ?? m.staticAccountKeys`.
  abbrev pub keys_of : Message → Option (List (List ℕ))
  keys_of m = elim m.account_keys [ some keys ↦ some keys | none ↦ m.static_account_keys ]

  decode_message : Message → Option (List (List ℕ)) → Option Text
  unfolding first_memo memo_in
  decode_message m none = none
  decode_message m (some keys) =
      first_of_two (memo_in keys rpc.decode_base58 m.instructions)
        (memo_in keys (λ bytes. bytes) m.compiled_instructions)

  -- `decodeMemo(tx)`.
  unfoldable pub decode_memo : Option Finalized → Option Text
  unfolding decode_message
  decode_memo none = none
  decode_memo (some tx) = elim tx.message [ none ↦ none | some m ↦ decode_message m (keys_of m) ]

-- The adapter: its endpoint and the public key of its signer.
pub record Adapter : Type 0 where
  pub url : Text
  pub signer : List ℕ

pub record DeliverParams : Type 0 where
  pub recipient_wallet : Text
  pub lamports : ℕ
  pub memo_parts : List Text

-- `memoParts.join(" | ")`.
abbrev pub join_parts : List Text → Text
join_parts [] = []
join_parts (part ∷ []) = part
join_parts (part ∷ next ∷ parts) = part ++ codes " | " ++ join_parts (next ∷ parts)

pub record ConfirmationResult : Type 0 where
  pub slot : ℕ
  pub block_time : Option ℕ

-- `if (!value) throw new Error(...)` on an environment variable.
abbrev pub required : Text → Option Text → Action Text
required name none = throw (not_set name)
required name (some value) = if is_empty value then throw (not_set name) else pure value

module _ (rpc : Rpc) where
  -- `getSolanaAdapter()`; the guard is the constructor's.
  unfoldable pub get_solana_adapter : Action Adapter
  get_solana_adapter = do
    url ← required (codes "SOLANA_RPC_URL") rpc.rpc_url
    secret ← required (codes "SOLANA_SIGNER_KEYPAIR") rpc.signer_keypair
    signer ← lift (rpc.decode_keypair secret)
    assert_not_mainnet_url url
    pure (record { url = url; signer = signer })

  -- `getRentExemptMinimum()`.
  unfoldable pub get_rent_exempt_minimum : Action ℕ
  get_rent_exempt_minimum = do
    url ← required (codes "SOLANA_RPC_URL") rpc.rpc_url
    assert_not_mainnet_url url
    call rpc.rent_minimum

  -- `sendTransaction`: the transaction is on its way, whatever comes back.
  abbrev pub broadcast : Adapter → DeliverParams → List ℕ → Action Text
  broadcast a p recipient w = (
    rpc.send_transaction w.tick a.signer recipient p.lamports (join_parts p.memo_parts),
    record w {
      tick = w.tick + 1;
      sent =
          record {
            recipient = p.recipient_wallet;
            lamports = p.lamports;
            memo = join_parts p.memo_parts;
          }
          ∷ w.sent;
    },
  )

  -- `send(params)`.
  unfoldable pub send : Adapter → DeliverParams → Action Text
  send a p = do
    recipient ← lift (assert_valid_recipient rpc p.recipient_wallet)
    broadcast a p recipient

  -- The slot and time of the answer: 0 and null if there is none.
  abbrev pub confirmation : Option Finalized → ConfirmationResult
  confirmation none = record { slot = 0; block_time = none }
  confirmation (some tx) = record { slot = tx.slot; block_time = tx.block_time }

  -- `confirm(signature)`.
  unfoldable pub confirm : Text → Action ConfirmationResult
  confirm signature = do
    call (λ t. rpc.confirm_transaction t signature)
    tx ← call (λ t. rpc.get_transaction t signature)
    pure (confirmation tx)

  -- `getMemo(signature)`.
  unfoldable pub get_memo : Text → Action (Option Text)
  get_memo signature = do
    tx ← call (λ t. rpc.get_transaction t signature)
    pure (decode_memo rpc tx)

  -- `deliver(params)`: the signature, and where it was confirmed.
  unfoldable pub deliver : Adapter → DeliverParams → Action (Text × ConfirmationResult)
  deliver a p = do signature ← send a p; confirmed ← confirm signature; pure (signature, confirmed)
