-- ===== src/Hedera/Sdk.antt =====
-- What the code uses of @hashgraph/sdk, and the variables that it reads. Every network call may
-- answer differently at each tick; a transaction is on its way, whatever comes back.
use eps_dapp.Base.{
  ℕ, ◌+◌, Bool, ◌||◌, Option, none, some, List, ◌∷◌, is_empty, if◌then◌else◌, Text, codes,
}
use eps_dapp.Variables.{Variables, text_variable, is_set_to}
use eps_dapp.Effects.{Action, Result, Outgoing, ◌>>◌, pure}

-- The sequence number of a message, and the ISO text of its consensus time, where the receipt has
-- them.
pub record MessageReceipt : Type 0 where
  pub topic_sequence_number : Option ℕ
  pub consensus_timestamp : Option Text

pub record Hedera : Type 0 where
  pub variables : Variables
  -- `PrivateKey.fromStringDer`, and `fromString` of an account, a token and a topic with
  -- `toString`: they throw on malformed text
  pub parse_key : Text → Result (Unit {0})
  pub parse_account : Text → Result Text
  pub parse_token : Text → Result Text
  pub parse_topic : Text → Result Text
  pub encode_utf8 : Text → List ℕ
  -- The transactions, on the main network or not: each gives a transaction id, by which its receipt
  -- is asked for.
  pub submit_message : ℕ → Bool → Text → Text → Result Text
  pub message_receipt : ℕ → Text → Result MessageReceipt
  pub create_token : ℕ → Bool → Result Text
  pub token_receipt : ℕ → Text → Result (Option Text)
  pub mint : ℕ → Bool → Text → List ℕ → Result Text
  pub mint_receipt : ℕ → Text → Result (Option ℕ)
  pub create_account : ℕ → Bool → Result Text
  pub account_receipt : ℕ → Text → Result (Option Text)
  pub transfer_token : ℕ → Bool → Text → ℕ → Text → Text → Result Text
  pub transfer_receipt : ℕ → Text → Result (Unit {0})

-- A value that the library computes or throws for.
abbrev pub lift : {A : Type 0} → Result A → Action A
lift r w = (r, w)

-- A transaction that goes out at this tick.
abbrev pub send_out : {A : Type 0} → Outgoing → (ℕ → Result A) → Action A
send_out out ask w = (ask w.tick, record w { tick = w.tick + 1; outbox = out ∷ w.outbox })

abbrev pub on_mainnet : Hedera → Bool
on_mainnet h = is_set_to h.variables "HEDERA_NETWORK" "mainnet"

abbrev pub network_name : Hedera → Text
network_name h = if on_mainnet h then codes "mainnet" else codes "testnet"

-- `buildClient()`: none without the credentials, else whether it is on the main network.
unfoldable pub build_client : Hedera → Action (Option Bool)
unfolding is_set_to
build_client h =
    let id = text_variable h.variables "HEDERA_OPERATOR_ID" in
    let key = text_variable h.variables "HEDERA_OPERATOR_KEY" in
    if is_empty id || is_empty key
    then pure none
    else do lift (h.parse_key key); lift (h.parse_account id); pure (some (on_mainnet h))
