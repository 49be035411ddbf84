-- ===== src/Hedera/Service.antt =====
-- lib/hedera/HederaService.ts: `submitToHCS`, `mintProofNFT` and `recordOnHedera`. The two calls of
-- `Promise.allSettled` run one after the other.
use eps_dapp.Base.{
  ℕ, Bool, ◌&&◌, Option, none, some, or_else, List, [], ◌∷◌, ◌++◌, is_empty, if◌then◌else◌, Text,
  codes, is_some,
}
use eps_dapp.Calendar.{to_iso_string}
use eps_dapp.Printing.{print_nat}
use Prim.Native.String.{String}
use eps_dapp.Json.{json_field, json_object}
use eps_dapp.Variables.{text_variable}
use eps_dapp.Effects.{Action, Env, ◌>>=◌, pure, call, catch, hcs_message, nft_minted}
use eps_dapp.Hedera.Sdk.{Hedera, MessageReceipt, lift, send_out, network_name, build_client}

pub record HcsResult : Type 0 where
  pub topic_id : Text
  pub sequence_number : ℕ
  pub consensus_timestamp : Option Text
  pub transaction_id : Text
  pub mirror_node_url : Text

pub record HtsMintResult : Type 0 where
  pub token_id : Text
  pub serial_number : ℕ
  pub transaction_id : Text
  pub mirror_node_url : Text

pub record HederaServiceResult : Type 0 where
  pub hcs : Option HcsResult
  pub hts : Option HtsMintResult
  pub both_succeeded : Bool

pub record HederaPayload : Type 0 where
  pub delivery_id : Text
  pub document_hash : Text
  pub case_ref : Text
  pub served_to : Text
  pub served_by : Text

-- `JSON.stringify({ eps: 'v1', ...payload, [stamp]: now })`.
unfoldable pub payload_json : HederaPayload → String → ℕ → Text
payload_json p stamp now = json_object (
    json_field "eps" (codes "v1")
    ∷ json_field "deliveryId" p.delivery_id
    ∷ json_field "documentHash" p.document_hash
    ∷ json_field "caseRef" p.case_ref
    ∷ json_field "servedTo" p.served_to
    ∷ json_field "servedBy" p.served_by
    ∷ json_field stamp (to_iso_string now)
    ∷ [])

module _ (env : Env) (h : Hedera) (payload : HederaPayload) where
  abbrev pub mirror_url : Text → Text
  mirror_url path =
      codes "https://" ++ network_name h ++ codes ".mirrornode.hedera.com/api/v1/" ++ path

  abbrev pub hcs_result : Text → Text → MessageReceipt → HcsResult
  hcs_result topic tx receipt =
      let number = or_else receipt.topic_sequence_number 0 in
      record {
        topic_id = topic;
        sequence_number = number;
        consensus_timestamp = receipt.consensus_timestamp;
        transaction_id = tx;
        mirror_node_url =
            mirror_url (codes "topics/" ++ topic ++ codes "/messages/" ++ print_nat number);
      }

  -- The body of the `try` of `submitToHCS`.
  unfoldable pub submit_with : Text → Text → Bool → Action (Option HcsResult)
  submit_with topic message mainnet = do
    parsed ← lift (h.parse_topic topic)
    tx ← send_out (hcs_message parsed message) (λ t. h.submit_message t mainnet parsed message)
    receipt ← call (λ t. h.message_receipt t tx)
    pure (some (hcs_result topic tx receipt))

  unfoldable pub submit_if : Text → Option Bool → Action (Option HcsResult)
  submit_if topic none w = pure none w
  submit_if topic (some mainnet) w =
      catch (submit_with topic (payload_json payload "submittedAt" (env.now w.tick)) mainnet)
        (λ e. pure none) w

  -- `submitToHCS(payload)`.
  unfoldable pub submit_to_hcs : Action (Option HcsResult)
  submit_to_hcs =
      let topic = text_variable h.variables "HEDERA_HCS_TOPIC_ID" in
      if is_empty topic then pure none else (build_client h >>= submit_if topic)

  abbrev pub mint_result : Text → Text → Option ℕ → HtsMintResult
  mint_result token tx serial =
      let number = or_else serial 0 in
      record {
        token_id = token;
        serial_number = number;
        transaction_id = tx;
        mirror_node_url =
            mirror_url (codes "tokens/" ++ token ++ codes "/nfts/" ++ print_nat number);
      }

  -- The body of the `try` of `mintProofNFT`.
  unfoldable pub mint_with : Text → List ℕ → Bool → Action (Option HtsMintResult)
  mint_with token metadata mainnet = do
    parsed ← lift (h.parse_token token)
    tx ← send_out (nft_minted parsed metadata) (λ t. h.mint t mainnet parsed metadata)
    serial ← call (λ t. h.mint_receipt t tx)
    pure (some (mint_result token tx serial))

  unfoldable pub mint_if : Text → Option Bool → Action (Option HtsMintResult)
  mint_if token none w = pure none w
  mint_if token (some mainnet) w =
      catch
        (mint_with token (h.encode_utf8 (payload_json payload "mintedAt" (env.now w.tick))) mainnet)
        (λ e. pure none) w

  -- `mintProofNFT(payload)`, which is handed the whole payload.
  unfoldable pub mint_proof_nft : Action (Option HtsMintResult)
  mint_proof_nft =
      let token = text_variable h.variables "HEDERA_NFT_TOKEN_ID" in
      if is_empty token then pure none else (build_client h >>= mint_if token)

  abbrev pub settled : {A : Type 0} → Action (Option A) → Action (Option A)
  settled m = catch m (λ e. pure none)

  abbrev pub both_results : Option HcsResult → Option HtsMintResult → HederaServiceResult
  both_results hcs hts = record {
    hcs = hcs;
    hts = hts;
    both_succeeded = is_some hcs && is_some hts;
  }

  unfoldable pub mint_after : Option HcsResult → Action HederaServiceResult
  mint_after hcs = settled mint_proof_nft >>= λ hts. pure (both_results hcs hts)

  -- `recordOnHedera(payload)`.
  unfoldable pub record_on_hedera : Action HederaServiceResult
  record_on_hedera = settled submit_to_hcs >>= mint_after
