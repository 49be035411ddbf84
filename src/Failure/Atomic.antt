-- ===== src/Failure/Atomic.antt =====
-- lib/failure.ts: theorems on `failServiceRequest`.
use eps_dapp.Base.{◌≡◌, ap, ◌∙◌, Bool, false, List, [], ◌∷◌, ◌++◌, arith, subst, update_where, Text}
use eps_dapp.Db.{ServiceRequest, Db, requests_table}
use eps_dapp.Effects.{Env, World, ok, is_ok, transaction-inv, >>=-inv, update}
use eps_dapp.Quota.{restore_quota, Restored, restore-Restored}
use eps_dapp.Failure.Handler.{
  FailServiceRequestInput, has_request_id, parked, failure_audit, stored_reason, audit_failure,
  restore_and_audit, fail_body, fail_service_request,
}

abbrev pub parked_rows : FailServiceRequestInput → List ServiceRequest → List ServiceRequest
parked_rows input =
    update_where (has_request_id input.service_request_id) (parked (stored_reason input))

-- Two of them: the quota and the audit row.
abbrev pub Credited : Env → FailServiceRequestInput → Db → Db → Bool → Type 0
Credited env input before after answer =
    (mid : Db) × Restored env input.org_id before mid answer
    × ((fresh : Text) × (after ≡ record mid {
      audit_log = mid.audit_log ++ failure_audit fresh input (stored_reason input) answer ∷ [];
    }))

-- The three changes together: the request is parked with the reason, the quota was restored as the
-- answer says, and one audit row tells of it.
abbrev pub Failed : Env → FailServiceRequestInput → Db → Db → Bool → Type 0
Failed env input before after answer =
    Credited env input (record before { requests = parked_rows input before.requests }) after answer

module _ (env : Env) (input : FailServiceRequestInput) where
  audit_failure_lem :
      (restored answer : Bool) (w : World)
      → (audit_failure env input restored w).0 ≡ ok answer
      → (restored ≡ answer)
        × ((audit_failure env input restored w).1.db ≡ record w.db {
          audit_log =
              w.db.audit_log
              ++ failure_audit (env.fresh_id w.tick) input (stored_reason input) restored ∷ [];
        })
  unfolding audit_failure
  audit_failure_lem restored answer w h = ground arith

  park_lem :
      (r : ServiceRequest) (w : World)
      → (update env requests_table
          (has_request_id input.service_request_id)
          (parked (stored_reason input))
          w).0
        ≡ ok r
      → (update env requests_table
          (has_request_id input.service_request_id)
          (parked (stored_reason input))
          w).1.db
        ≡ record w.db { requests = parked_rows input w.db.requests }
  park_lem r w h = ground arith

  restore_and_audit-Credited :
      (answer : Bool) (w : World)
      → (restore_and_audit env input w).0 ≡ ok answer
      → Credited env input w.db (restore_and_audit env input w).1.db answer
  unfolding restore_and_audit
  restore_and_audit-Credited answer w =
      >>=-inv (λ r. r.0 ≡ ok answer → Credited env input w.db r.1.db answer)
        (restore_quota env input.org_id) w (audit_failure env input)
        (λ restored h k.
          let mid = (restore_quota env input.org_id w).1 in
          let (same, after) = audit_failure_lem restored answer mid k in
          (
            mid.db,
            subst (λ b. Restored env input.org_id w.db mid.db b) same
                (restore-Restored env input.org_id w restored h),
            (
              env.fresh_id mid.tick,
              after
                  ∙ ap
                      (λ b. record mid.db {
                        audit_log =
                            mid.db.audit_log
                            ++ failure_audit (env.fresh_id mid.tick) input (stored_reason input) b
                              ∷ [];
                      })
                      same,
            ),
          ))
        (λ r h k f. absurd (ground arith))

  fail_body-Failed :
      (answer : Bool) (w : World)
      → (fail_body env input w).0 ≡ ok answer
      → Failed env input w.db (fail_body env input w).1.db answer
  unfolding fail_body
  fail_body-Failed answer w =
      >>=-inv (λ r. r.0 ≡ ok answer → Failed env input w.db r.1.db answer)
        (update env requests_table (has_request_id input.service_request_id)
          (parked (stored_reason input)))
        w (λ r. restore_and_audit env input)
        (λ r h k.
          subst
            (λ d.
              Credited env input d
                (restore_and_audit env input
                  (update env requests_table (has_request_id input.service_request_id)
                    (parked (stored_reason input)) w).1).1.db
                answer)
            (park_lem r w h) (restore_and_audit-Credited answer _ k))
        (λ r h k f. absurd (ground arith))

  -- A failed delivery is recorded whole: the request is parked, its unit of quota given back if
  -- the organization has an active subscription with usage, and one audit row written.
  pub fail-Failed :
      (answer : Bool) (w : World)
      → (fail_service_request env input w).0 ≡ ok answer
      → Failed env input w.db (fail_service_request env input w).1.db answer
  unfolding fail_service_request
  fail-Failed answer w =
      transaction-inv (λ r. r.0 ≡ ok answer → Failed env input w.db r.1.db answer)
        (fail_body env input) w (λ b e k. fail_body-Failed answer w (e ∙ k))
        (λ r h k f. absurd (ground arith))

  -- Or not at all: whatever stops it, the tables are those from before.
  pub fail-atomic :
      (w : World)
      → is_ok (fail_service_request env input w).0 ≡ false
      → (fail_service_request env input w).1.db ≡ w.db
  unfolding fail_service_request
  fail-atomic w h = ground arith
