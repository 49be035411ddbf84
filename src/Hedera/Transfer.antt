-- ===== src/Hedera/Transfer.antt =====
-- lib/hedera/mintAndTransferProofNFT.ts: `mintAndTransferProofNFT`.
use eps_dapp.Base.{
  ℕ, Bool, true, false, not, ◌&&◌, ◌||◌, Option, none, some, or_else, List, ◌++◌, ltb, length, take,
  is_empty, if◌then◌else◌, Text, codes,
}
use eps_dapp.Printing.{print_nat}
use eps_dapp.Variables.{text_variable, is_set_to}
use eps_dapp.Effects.{
  Action, ◌>>=◌, ◌>>◌, pure, throw, call, token_created, nft_minted, account_created,
  nft_transferred, hedera_mainnet_refused, external,
}
use eps_dapp.Hedera.Sdk.{Hedera, lift, send_out, on_mainnet}

pub record ProofNftTransferResult : Type 0 where
  pub token_id : Text
  pub serial : ℕ
  pub transfer_tx : Text
  pub defendant_id : Text
  pub defendant_created : Bool

pub record ProofNftMetadata : Type 0 where
  pub case_id : Text
  pub hcs_topic_id : Option Text
  pub hcs_sequence_number : Option ℕ

module _ (h : Hedera) where
  -- `meta.hcsTopicId ?? process.env.HEDERA_HCS_TOPIC_ID ?? "0.0.9225885"`.
  abbrev pub topic_of : ProofNftMetadata → Text
  topic_of meta = elim meta.hcs_topic_id [
    | some topic ↦ topic
    | none ↦ or_else (h.variables (codes "HEDERA_HCS_TOPIC_ID")) (codes "0.0.9225885")
  ]

  abbrev pub meta_uri : ProofNftMetadata → Text
  meta_uri meta =
      codes "https://eps-dapp.vercel.app/api/nft/meta?topic="
      ++ topic_of meta
      ++ codes "&seq="
      ++ print_nat (or_else meta.hcs_sequence_number 0)

  -- The bytes of the address, cut at 99 if there are more than 100.
  unfoldable pub nft_metadata : ProofNftMetadata → List ℕ
  nft_metadata meta =
      let bytes = h.encode_utf8 (meta_uri meta) in
      if ltb 100 (length bytes) then take 99 bytes else bytes

  -- A receipt's value, or an error.
  abbrev pub found : {A : Type 0} → Text → Option A → Action A
  found message none = throw (external message)
  found message (some a) = pure a

  module _ (mainnet : Bool) (operator : Text) where
    -- (1) The collection: the configured one, or a new one.
    unfoldable pub resolve_token : Action Text
    resolve_token =
        let token = text_variable h.variables "HEDERA_NFT_TOKEN_ID" in
        if is_empty token
        then (do
          tx ← send_out token_created (λ t. h.create_token t mainnet)
          receipt ← call (λ t. h.token_receipt t tx)
          found (codes "Token creation returned no token id.") receipt)
        else lift (h.parse_token token)

    -- (2) The token with the metadata.
    unfoldable pub mint_serial : Text → ProofNftMetadata → Action ℕ
    mint_serial token meta = do
      tx ←
          send_out (nft_minted token (nft_metadata meta))
            (λ t. h.mint t mainnet token (nft_metadata meta))
      serial ← call (λ t. h.mint_receipt t tx)
      found (codes "Mint returned no serial number.") serial

    -- (3) The defendant's account, and whether it was created.
    unfoldable pub resolve_defendant : Action (Text × Bool)
    resolve_defendant =
        let account = text_variable h.variables "HEDERA_DEMO_DEFENDANT_ID" in
        if is_empty account
        then (do
          tx ← send_out account_created (λ t. h.create_account t mainnet)
          receipt ← call (λ t. h.account_receipt t tx)
          created ← found (codes "Account creation returned no account id.") receipt
          pure (created, true))
        else (lift (h.parse_account account) >>= λ parsed. pure (parsed, false))

    -- (4) The transfer.
    unfoldable pub transfer_serial : Text → ℕ → Text × Bool → Action ProofNftTransferResult
    transfer_serial token serial defendant = do
      tx ←
          send_out (nft_transferred token serial defendant.0)
            (λ t. h.transfer_token t mainnet token serial operator defendant.0)
      call (λ t. h.transfer_receipt t tx)
      pure (record {
        token_id = token;
        serial = serial;
        transfer_tx = tx;
        defendant_id = defendant.0;
        defendant_created = defendant.1;
      })

    unfoldable pub transfer_minted : Text → ℕ → Action ProofNftTransferResult
    transfer_minted token serial = resolve_defendant >>= transfer_serial token serial

    unfoldable pub mint_and_transfer_token : ProofNftMetadata → Text → Action ProofNftTransferResult
    mint_and_transfer_token meta token = mint_serial token meta >>= transfer_minted token

    unfoldable pub mint_and_transfer_as : ProofNftMetadata → Action ProofNftTransferResult
    mint_and_transfer_as meta = resolve_token >>= mint_and_transfer_token meta

  -- The guard.
  unfoldable pub is_refused : Bool
  unfolding is_set_to
  is_refused = on_mainnet h && not (is_set_to h.variables "HEDERA_ALLOW_MAINNET" "true")

  abbrev pub operator_id : Text
  operator_id = text_variable h.variables "HEDERA_OPERATOR_ID"

  abbrev pub operator_key : Text
  operator_key = text_variable h.variables "HEDERA_OPERATOR_KEY"

  -- What is done with the operator's credentials.
  unfoldable pub mint_and_transfer_by_operator :
      ProofNftMetadata → Action (Option ProofNftTransferResult)
  unfolding is_set_to
  mint_and_transfer_by_operator meta = do
    lift (h.parse_key operator_key)
    operator ← lift (h.parse_account operator_id)
    result ← mint_and_transfer_as (on_mainnet h) operator meta
    pure (some result)

  unfoldable pub mint_and_transfer_proof_nft :
      ProofNftMetadata → Action (Option ProofNftTransferResult)
  mint_and_transfer_proof_nft meta =
      if is_empty operator_id || is_empty operator_key
      then pure none
      else if is_refused
      then throw hedera_mainnet_refused
      else mint_and_transfer_by_operator meta
