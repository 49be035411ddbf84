-- ===== src/Requests/Filing.antt =====
-- app/api/service-requests/route.ts: `POST`.
use eps_dapp.Base.{
  ℕ, Option, none, some, [], ◌∷◌, ◌++◌, any, find, is_empty, if◌then◌else◌, Text, codes, text_eq,
}
use eps_dapp.Auth.{Session, UserAuthContext, require_user, text_of}
use eps_dapp.Chains.Address.{is_evm_address}
use eps_dapp.RateLimit.Fixed
use eps_dapp.Db.{ServiceRequest, ServiceStatus, Db}
use eps_dapp.Effects.{
  Action, Env, Result, ok, err, crashed, Error, Reason, ◌>>=◌, ◌>>◌, pure, throw, statement,
  record_not_found, unique_violation, unauthorized, quota_exceeded, no_active_subscription,
  invalid_recipient,
}
use eps_dapp.Quota.{check_and_decrement_quota}
use eps_dapp.Solana.{Rpc, assert_valid_recipient}
use eps_dapp.Ens.Resolver.{EnsClient, get_agent_ens_name}
use eps_dapp.Hedera.Sdk.{Hedera}
use eps_dapp.Hedera.Service.{HederaPayload}
use eps_dapp.Hedera.Tasks.{served_by, anchor_on_hedera}
use eps_dapp.Intake.{has_clerk_id}
use eps_dapp.Http.{Body, malformed_json, not_an_object, fields, Caller, count_fixed, caller_key}
use eps_dapp.Requests.Input.{RawInput, FilingInput, parse_input}
use eps_dapp.Requests.Recipient.{ResolvedRecipient, resolve_recipient}

pub data FilingResponse : Type 0 where
  too_many : Fixed.RateLimitHeaders → FilingResponse
  refused_401 invalid_json invalid_input name_unresolved : FilingResponse
  bad_recipient : Reason → FilingResponse
  no_plan out_of_quota : FilingResponse
  created : Text → ServiceStatus → FilingResponse

abbrev pub intake_limit : Fixed.RateLimitOptions
intake_limit = record { limit = 10; window_ms = 60000 }

-- `input.recipientEnsName ?? ensDisplayName ?? null`.
abbrev pub ens_name_of : FilingInput → ResolvedRecipient → Option Text
ens_name_of input r = elim input.recipient_ens_name [
  | some name ↦ some name
  | none ↦ r.ens_display_name
]

-- The row of the request: the columns that the route does not give are null, the digest and the
-- notice token among them.
abbrev pub filed_row :
    Text → Option Text → FilingInput → ResolvedRecipient → Option Text → Text → ℕ → ServiceRequest
filed_row user org input r agent id now = record {
  id = id;
  user_id = some user;
  org_id = org;
  case_caption = input.case_caption;
  plaintiff_name = input.plaintiff_name;
  defendant_name = input.defendant_name;
  recipient_wallet = r.wallet;
  recipient_ens_name = ens_name_of input r;
  court_order_flag = input.court_order_flag;
  attested_at = now;
  notice_token = none;
  document_sha256 = none;
  status = ServiceStatus.staged;
  tx_signature = none;
  slot = none;
  block_time = none;
  failure_reason = none;
  created_at = now;
  ens_display_name = r.ens_display_name;
  agent_ens_name = agent;
  hcs_topic_id = none;
  hcs_sequence_number = none;
  hcs_consensus_time = none;
  hcs_tx_id = none;
  hcs_mirror_url = none;
  hts_token_id = none;
  hts_serial_number = none;
  hts_tx_id = none;
  hts_mirror_url = none;
  hts_nft_serial = none;
  hts_transfer_tx = none;
}

abbrev pub add_request : ServiceRequest → Db → Result ServiceRequest × Db
add_request row db =
    if any (λ (r : ServiceRequest). text_eq r.id row.id) db.requests
    then (err unique_violation, db)
    else (ok row, record db { requests = db.requests ++ row ∷ [] })

-- `connect: { clerkOrgId }`, if the caller has an organization.
unfoldable pub connect_and_add :
    Text → (Option Text → ServiceRequest) → Db → Result ServiceRequest × Db
unfolding text_eq
connect_and_add clerk row db =
    if is_empty clerk
    then add_request (row none) db
    else elim (find (has_clerk_id clerk) db.organizations) [
      | none ↦ (err record_not_found, db)
      | some o ↦ add_request (row (some o.id)) db
    ]

-- The errors of steps (3) and (2b) that have an answer; the others are thrown on.
unfoldable pub quota_answer : Error → Action FilingResponse
quota_answer (quota_exceeded org limit) = pure out_of_quota
quota_answer (no_active_subscription org) = pure no_plan
quota_answer e = throw e

unfoldable pub recipient_answer : Error → Action FilingResponse
recipient_answer (invalid_recipient addr reason) = pure (bad_recipient reason)
recipient_answer e = throw e

module _ (env : Env) (rpc : Rpc) (ens : EnsClient) (h : Hedera) where
  module _ (ctx : UserAuthContext) (input : FilingInput) (r : ResolvedRecipient)
      (agent : Option Text) where
    -- (4) the row.
    unfoldable pub create_filed : Action ServiceRequest
    create_filed w =
        statement env
          (connect_and_add (text_of ctx.org_id)
            (λ org. filed_row ctx.user_id org input r agent (env.fresh_id w.tick) (env.now w.tick)))
          w

    abbrev pub filing_payload : ServiceRequest → HederaPayload
    filing_payload row = record {
      delivery_id = row.id;
      document_hash = [];
      case_ref = input.case_caption;
      served_to = r.wallet;
      served_by = served_by h agent;
    }

    -- (5) the proof on Hedera, and the answer.
    unfoldable pub anchor_filed : ServiceRequest → Action FilingResponse
    anchor_filed row =
        anchor_on_hedera env h row.id (filing_payload row) >> pure (created row.id row.status)

    unfoldable pub stage_filed : Action FilingResponse
    stage_filed = create_filed >>= anchor_filed

    -- (3) The unit of quota, for a caller with an organization.
    unfoldable pub charge_and_file : Action FilingResponse
    charge_and_file w =
        if is_empty (text_of ctx.org_id)
        then stage_filed w
        else let charged = check_and_decrement_quota env (text_of ctx.org_id) w in
          elim charged.0 [
            | ok quota ↦ stage_filed charged.1
            | err e ↦ quota_answer e charged.1
            | crashed ↦ (crashed, charged.1)
          ]

    -- (2b) The wallet is an EVM address, or a Solana recipient.
    unfoldable pub check_and_file : Action FilingResponse
    check_and_file w =
        if is_evm_address r.wallet
        then charge_and_file w
        else elim (assert_valid_recipient rpc r.wallet) [
          | ok key ↦ charge_and_file w
          | err e ↦ recipient_answer e w
          | crashed ↦ (crashed, w)
        ]

  -- (2a) The recipient, and the agent's name.
  unfoldable pub file_resolved :
      UserAuthContext → FilingInput → Option ResolvedRecipient → Action FilingResponse
  file_resolved ctx input none = pure name_unresolved
  file_resolved ctx input (some r) =
      get_agent_ens_name ens h.variables >>= check_and_file ctx input r

  -- (1) The fields.
  unfoldable pub file_parsed : UserAuthContext → Option FilingInput → Action FilingResponse
  file_parsed ctx none = pure invalid_input
  file_parsed ctx (some input) = resolve_recipient ens h.variables input >>= file_resolved ctx input

  unfoldable pub file_body : UserAuthContext → Body RawInput → Action FilingResponse
  unfolding parse_input
  file_body ctx malformed_json = pure invalid_json
  file_body ctx not_an_object = pure invalid_input
  file_body ctx (fields raw) = file_parsed ctx (parse_input raw)

  unfoldable pub file_as : Result UserAuthContext → Body RawInput → Action FilingResponse
  file_as (ok ctx) body = file_body ctx body
  file_as (err unauthorized) body = pure refused_401
  file_as (err e) body = throw e
  file_as crashed body = λ w. (crashed, w)

  unfoldable pub file_counted :
      Session → Body RawInput → Fixed.RateLimitResult → Action FilingResponse
  unfolding Fixed.rate_limit_headers
  file_counted session body rl =
      if rl.ok
      then file_as (require_user session) body
      else pure (too_many (Fixed.rate_limit_headers rl))

  unfoldable pub post_service_request : Caller → Session → Body RawInput → Action FilingResponse
  post_service_request caller session body =
      count_fixed env (codes "service-requests:" ++ caller_key caller) intake_limit
      >>= file_counted session body
