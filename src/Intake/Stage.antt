-- ===== src/Intake/Stage.antt =====
-- lib/intake.ts: `createServiceRequest`.
use eps_dapp.Base.{
  ℕ, Bool, false, ◌||◌, Option, none, some, List, [], ◌∷◌, ◌++◌, any, find, if◌then◌else◌, Text,
  text_eq,
}
use eps_dapp.Db.{
  Organization, ServiceRequest, ServiceStatus, AuditLog, service_request_staged, Db,
  audit_log_table,
}
use eps_dapp.Effects.{
  Action, Env, Result, ok, err, ◌>>=◌, ◌>>◌, pure, call, transaction, statement, create,
  record_not_found, unique_violation,
}
use eps_dapp.Quota.{QuotaResult, check_and_decrement_quota}
use eps_dapp.Storage.{Vault, StoredDocument, store_document}
use eps_dapp.Hex.{to_hex}

pub record CreateServiceRequestInput : Type 0 where
  pub org_id : Text
  pub actor_id : Text
  pub case_caption : Text
  pub plaintiff_name : Text
  pub defendant_name : Text
  pub recipient_wallet : Text
  pub court_order_flag : Bool
  pub document : List ℕ

pub record StagedServiceRequest : Type 0 where
  pub id : Text
  pub status : ServiceStatus
  pub notice_token : Text
  pub object_key : Text
  pub sha256 : Text

abbrev pub has_clerk_id : Text → Organization → Bool
has_clerk_id clerk o = text_eq o.clerk_org_id clerk

-- The row of a new request; the columns that the code does not give are null.
abbrev pub staged_row : CreateServiceRequestInput → Text → Text → Text → Text → ℕ → ServiceRequest
staged_row input token sha256 org id now = record {
  id = id;
  user_id = none;
  org_id = some org;
  case_caption = input.case_caption;
  plaintiff_name = input.plaintiff_name;
  defendant_name = input.defendant_name;
  recipient_wallet = input.recipient_wallet;
  recipient_ens_name = none;
  court_order_flag = input.court_order_flag;
  attested_at = now;
  notice_token = some token;
  document_sha256 = some sha256;
  status = ServiceStatus.staged;
  tx_signature = none;
  slot = none;
  block_time = none;
  failure_reason = none;
  created_at = now;
  ens_display_name = none;
  agent_ens_name = none;
  hcs_topic_id = none;
  hcs_sequence_number = none;
  hcs_consensus_time = none;
  hcs_tx_id = none;
  hcs_mirror_url = none;
  hts_token_id = none;
  hts_serial_number = none;
  hts_tx_id = none;
  hts_mirror_url = none;
  hts_nft_serial = none;
  hts_transfer_tx = none;
}

-- A row with the id, or with the notice token, is there already.
abbrev pub is_taken : Text → Text → ServiceRequest → Bool
is_taken id token r =
    text_eq r.id id || elim r.notice_token [ none ↦ false | some t ↦ text_eq t token ]

-- `connect: { clerkOrgId }`: it throws if no organization has the Clerk id.
abbrev pub insert_request :
    CreateServiceRequestInput
    → Text
    → Text
    → Text
    → ℕ
    → Db
    → Option Organization
    → Result ServiceRequest × Db
insert_request input token sha256 id now db none = (err record_not_found, db)
insert_request input token sha256 id now db (some o) =
    if any (is_taken id token) db.requests then (err unique_violation, db) else (
      ok (staged_row input token sha256 o.id id now),
      record db { requests = db.requests ++ staged_row input token sha256 o.id id now ∷ [] },
    )

abbrev pub staged_audit :
    Text → CreateServiceRequestInput → StoredDocument → ServiceRequest → AuditLog
staged_audit fresh input stored row = record {
  id = fresh;
  detail = service_request_staged input.org_id stored.object_key stored.sha256;
  actor_id = input.actor_id;
  target_id = row.id;
}

abbrev pub answer_of : Text → StoredDocument → ServiceRequest → StagedServiceRequest
answer_of token stored row = record {
  id = row.id;
  status = row.status;
  notice_token = token;
  object_key = stored.object_key;
  sha256 = stored.sha256;
}

module _ (env : Env) (input : CreateServiceRequestInput) where
  -- (3) the row.
  unfoldable pub create_request : Text → StoredDocument → Action ServiceRequest
  create_request token stored w =
      statement env
        (λ db.
          insert_request input token stored.sha256 (env.fresh_id w.tick) (env.now w.tick) db
            (find (has_clerk_id input.org_id) db.organizations))
        w

  -- (4) the audit row, and the answer.
  unfoldable pub audit_staged : Text → StoredDocument → ServiceRequest → Action StagedServiceRequest
  audit_staged token stored row w =
      (create env audit_log_table (λ (a : AuditLog). text_eq a.id (env.fresh_id w.tick))
            (staged_audit (env.fresh_id w.tick) input stored row)
          >> pure (answer_of token stored row))
        w

  unfoldable pub stage_stored : Text → StoredDocument → Action StagedServiceRequest
  stage_stored token stored = create_request token stored >>= audit_staged token stored

-- The 16 random bytes of the notice token.
unfoldable pub generate_notice_token : Env → Action Text
generate_notice_token env = call (λ t. ok (to_hex (env.random_bytes t 16)))

module _ (v : Vault) (env : Env) (input : CreateServiceRequestInput) where
  -- (2) the document.
  unfoldable pub store_and_stage : Text → QuotaResult → Action StagedServiceRequest
  store_and_stage token q = store_document v env input.document >>= stage_stored env input token

  -- (1) the unit of quota.
  unfoldable pub charge_and_stage : Text → Action StagedServiceRequest
  charge_and_stage token = check_and_decrement_quota env input.org_id >>= store_and_stage token

  unfoldable pub create_service_request : Action StagedServiceRequest
  create_service_request = transaction (generate_notice_token env >>= charge_and_stage)
