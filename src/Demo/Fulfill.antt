-- ===== src/Demo/Fulfill.antt =====
-- app/api/demo/fulfill/route.ts: `POST`.
use eps_dapp.Base.{
  ℕ, Bool, ◌||◌, ◌==◌, Option, none, some, or_else, [], ◌∷◌, ◌++◌, is_empty, if◌then◌else◌, Text,
  codes,
}
use eps_dapp.Auth.{Session, UserAuthContext, require_user}
use eps_dapp.Calendar.{to_iso_string}
use eps_dapp.Printing.{print_nat}
use eps_dapp.Json.{json_field, json_object}
use eps_dapp.Variables.{text_variable, is_set_to}
use eps_dapp.Db.{ServiceRequest, ServiceStatus, requests_table}
use eps_dapp.Effects.{
  Action, Env, Error, Result, ok, err, crashed, ◌>>=◌, ◌>>◌, pure, throw, find_unique, update,
  unauthorized,
}
use eps_dapp.Failure.{has_request_id}
use eps_dapp.Http.{Field, Body, malformed_json, not_an_object, fields}
use eps_dapp.Hedera.Sdk.{Hedera, network_name}
use eps_dapp.Hedera.Transfer.{ProofNftTransferResult}
use eps_dapp.Hedera.Routes.{submit_proof, attempt_nft, set_operator}
use eps_dapp.Demo.Skip.{is_demo, id_of, is_own}

pub data FulfillResponse : Type 0 where
  hidden refused_401 invalid_json invalid_input not_found : FulfillResponse
  already_confirmed has_failed not_configured : FulfillResponse
  submit_failed : Error → FulfillResponse
  -- id, status, transaction, number, token, error of the mint, time
  fulfilled :
      Text
      → ServiceStatus
      → Text
      → ℕ
      → Option ProofNftTransferResult
      → Option Error
      → ℕ
      → FulfillResponse

abbrev pub recipient_name : ServiceRequest → Text
recipient_name r = or_else r.recipient_ens_name r.recipient_wallet

abbrev pub service_message : ServiceRequest → ℕ → Text
service_message r now = json_object (
    json_field "app" (codes "EPS")
    ∷ json_field "event" (codes "service-of-process")
    ∷ json_field "serviceId" r.id
    ∷ json_field "caseCaption" r.case_caption
    ∷ json_field "recipient" (recipient_name r)
    ∷ json_field "agent" (codes "youhavebeenserved.eth")
    ∷ json_field "timestamp" (to_iso_string now)
    ∷ [])

module _ (env : Env) (h : Hedera) where
  abbrev pub mirror_base : Text
  mirror_base = codes "https://hashscan.io/" ++ network_name h

  abbrev pub topic : Text
  topic = text_variable h.variables "HEDERA_HCS_TOPIC_ID"

  abbrev pub token_url : ProofNftTransferResult → Option Text
  token_url nft =
      if nft.serial == 0
      then none
      else some
          (mirror_base ++ codes "/token/" ++ nft.token_id ++ codes "/" ++ print_nat nft.serial)

  -- `...(nftTokenId && {...})`: an empty token id is falsy.
  abbrev pub with_token : Option ProofNftTransferResult → ServiceRequest → ServiceRequest
  with_token none r = r
  with_token (some nft) r = if is_empty nft.token_id then r else record r {
    hts_token_id = some nft.token_id;
    hts_serial_number = some nft.serial;
    hts_tx_id = some nft.transfer_tx;
    hts_mirror_url = token_url nft;
    hts_nft_serial = some nft.serial;
    hts_transfer_tx = some nft.transfer_tx;
  }

  abbrev pub fulfilled_row :
      ℕ → Text × ℕ → Option ProofNftTransferResult → ServiceRequest → ServiceRequest
  fulfilled_row now (tx, number) nft r = with_token nft (record r {
    status = ServiceStatus.confirmed;
    hcs_topic_id = some topic;
    hcs_sequence_number = some number;
    hcs_consensus_time = some (to_iso_string now);
    hcs_tx_id = some tx;
    hcs_mirror_url =
        some
          (mirror_base ++ codes "/topic/" ++ topic ++ codes "/messages?seq=" ++ print_nat number);
  })

  abbrev pub update_fulfilled :
      ServiceRequest
      → ℕ
      → Text × ℕ
      → Option ProofNftTransferResult × Option Error
      → Action FulfillResponse
  update_fulfilled r now sent nft =
      update env requests_table (has_request_id r.id) (fulfilled_row now sent nft.0) >>= λ row.
      pure (fulfilled row.id row.status sent.0 sent.1 nft.0 nft.1 now)

  unfoldable pub mint_and_update : ServiceRequest → ℕ → Text × ℕ → Action FulfillResponse
  mint_and_update r now sent = attempt_nft env h r.id topic sent.1 >>= update_fulfilled r now sent

  -- The message; its failure is answered.
  unfoldable pub submit_and_update : ServiceRequest → ℕ → Action FulfillResponse
  submit_and_update r now w = elim (submit_proof env h topic (service_message r now) w).0 [
    | ok sent ↦ mint_and_update r now sent (submit_proof env h topic (service_message r now) w).1
    | err e ↦ (ok (submit_failed e), (submit_proof env h topic (service_message r now) w).1)
    | crashed ↦ (crashed, (submit_proof env h topic (service_message r now) w).1)
  ]

  abbrev pub is_unconfigured : Bool
  is_unconfigured =
      is_empty (text_variable h.variables "HEDERA_OPERATOR_ID")
      || (is_empty (text_variable h.variables "HEDERA_OPERATOR_KEY") || is_empty topic)

  unfoldable pub fulfill_open : ServiceRequest → Action FulfillResponse
  fulfill_open r w =
      if is_unconfigured
      then (ok not_configured, w)
      else (set_operator env h >> submit_and_update r (env.now w.tick)) w

  unfoldable pub fulfill_status : ServiceRequest → ServiceStatus → Action FulfillResponse
  fulfill_status r ServiceStatus.confirmed = pure already_confirmed
  fulfill_status r ServiceStatus.failed = pure has_failed
  fulfill_status r status = fulfill_open r

  unfoldable pub fulfill_found : Option ServiceRequest → Action FulfillResponse
  fulfill_found none = pure not_found
  fulfill_found (some r) = fulfill_status r r.status

  unfoldable pub fulfill_own : UserAuthContext → Option Text → Action FulfillResponse
  fulfill_own ctx none = pure invalid_input
  fulfill_own ctx (some id) =
      find_unique env requests_table (is_own id ctx.user_id) >>= fulfill_found

  unfoldable pub fulfill_body : UserAuthContext → Body Field → Action FulfillResponse
  fulfill_body ctx malformed_json = pure invalid_json
  fulfill_body ctx not_an_object = pure invalid_input
  fulfill_body ctx (fields id) = fulfill_own ctx (id_of id)

  unfoldable pub fulfill_as : Result UserAuthContext → Body Field → Action FulfillResponse
  fulfill_as (ok ctx) body = fulfill_body ctx body
  fulfill_as (err unauthorized) body = pure refused_401
  fulfill_as (err e) body = throw e
  fulfill_as crashed body = λ w. (crashed, w)

  unfoldable pub post_fulfill : Session → Body Field → Action FulfillResponse
  unfolding is_set_to
  post_fulfill session body =
      if is_demo h.variables then fulfill_as (require_user session) body else pure hidden
