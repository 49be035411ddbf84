-- ===== src/Failure/Handler.antt =====
-- lib/failure.ts: `failServiceRequest`.
use eps_dapp.Base.{Bool, Option, none, some, is_empty, if◌then◌else◌, take, ℕ, Text, codes, text_eq}
use eps_dapp.Db.{
  ServiceRequest, ServiceStatus, AuditLog, service_failed, requests_table, audit_log_table,
}
use eps_dapp.Effects.{Action, Env, ◌>>=◌, ◌>>◌, pure, transaction, update, create}
use eps_dapp.Quota.{restore_quota}

pub record FailServiceRequestInput : Type 0 where
  pub service_request_id : Text
  pub org_id : Option Text
  pub reason : Text
  pub tx_signature : Option Text

abbrev pub max_reason_len : ℕ
max_reason_len = 500

abbrev pub worker_actor : Text
worker_actor = codes "system:worker"

abbrev pub has_request_id : Text → ServiceRequest → Bool
has_request_id id r = text_eq r.id id

-- `input.txSignature ? { txSignature } : {}`.
abbrev pub truthy : Option Text → Option Text
truthy none = none
truthy (some s) = if is_empty s then none else some s

abbrev pub parked : Text → ServiceRequest → ServiceRequest
parked reason r = record r { status = ServiceStatus.failed; failure_reason = some reason }

-- The audit row of the transition.
abbrev pub failure_audit : Text → FailServiceRequestInput → Text → Bool → AuditLog
failure_audit fresh input reason restored = record {
  id = fresh;
  detail = service_failed input.org_id reason restored (truthy input.tx_signature);
  actor_id = worker_actor;
  target_id = input.service_request_id;
}

-- `input.reason.slice(0, MAX_REASON_LEN)`.
abbrev pub stored_reason : FailServiceRequestInput → Text
stored_reason input = take max_reason_len input.reason

module _ (env : Env) where
  -- (3) the audit row, and the answer.
  unfoldable pub audit_failure : FailServiceRequestInput → Bool → Action Bool
  audit_failure input restored w =
      (create env audit_log_table (λ (a : AuditLog). text_eq a.id (env.fresh_id w.tick))
            (failure_audit (env.fresh_id w.tick) input (stored_reason input) restored)
          >> pure restored)
        w

  -- (2) the unit of quota, and (3).
  unfoldable pub restore_and_audit : FailServiceRequestInput → Action Bool
  restore_and_audit input = restore_quota env input.org_id >>= audit_failure input

  -- The body of the transaction.
  unfoldable pub fail_body : FailServiceRequestInput → Action Bool
  fail_body input =
      update env requests_table (has_request_id input.service_request_id)
        (parked (stored_reason input))
      >> restore_and_audit input

  unfoldable pub fail_service_request : FailServiceRequestInput → Action Bool
  fail_service_request input = transaction (fail_body input)
