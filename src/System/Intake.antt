-- ===== src/System/Intake.antt =====
-- lib/intake.ts and lib/quota.ts: an intake adds a request to the table, and no other changes.
use eps_dapp.Base.{
  refl, ap, false, none, some, any, any-or, find, arith, Text, Bool-cases, Option-cases, text_eq,
  inl, inr,
}
use eps_dapp.Db.{Db, ServiceRequest}
use eps_dapp.Effects.{Env, ◌>>=◌, Result-cases}
use eps_dapp.Failure.{has_request_id}
use eps_dapp.Intake.{
  CreateServiceRequestInput, has_clerk_id, create_request, audit_staged, stage_stored, staged_row,
  store_and_stage, charge_and_stage, generate_notice_token, create_service_request, is_taken,
}
use eps_dapp.Lifecycle.{same-Evolved, added-Evolved}
use eps_dapp.Quota.{
  QuotaResult, check_and_decrement_quota, consume_found, consume_from, roll_over, increment,
}
use eps_dapp.Storage.{Vault, StoredDocument, store_document, store_document-keeps}
use eps_dapp.System.Rules.{Evolves, Keeps, Keeps-Evolves, transaction-Evolves, >>=-Evolves}

module _ (env : Env) where
  -- The meter only writes subscriptions.
  pub consume-Keeps : (org : Text) → Keeps (check_and_decrement_quota env org)
  unfolding check_and_decrement_quota consume_found consume_from roll_over increment
  consume-Keeps org w = ground arith

  module _ (input : CreateServiceRequestInput) where
    create_request-Evolves :
        (token : Text) (stored : StoredDocument) → Evolves (create_request env input token stored)
    unfolding create_request
    create_request-Evolves token stored w unique = elim (Result-cases (env.answers w.tick)) [
      | inl (a, k) ↦ elim (Option-cases (find (has_clerk_id input.org_id) w.db.organizations)) [
        | inl n ↦ same-Evolved w.db _ unique (ground (arith, k, n))
        | inr (o, f) ↦
            elim (Bool-cases (any (is_taken (env.fresh_id w.tick) token) w.db.requests)) [
              | inl t ↦ same-Evolved w.db _ unique (ground (arith, k, f, t))
              | inr t ↦
                  added-Evolved w.db _
                    (staged_row input token stored.sha256 o.id (env.fresh_id w.tick)
                      (env.now w.tick))
                    unique
                    (any-or (has_request_id (env.fresh_id w.tick))
                      (λ r. elim r.notice_token [ none ↦ false | some t ↦ text_eq t token ])
                      w.db.requests t)
                    (ground (arith, k, f, t))
            ]
      ]
      | inr other ↦ same-Evolved w.db _ unique (ground (arith, other))
    ]

    audit_staged-Keeps :
        (token : Text) (stored : StoredDocument) (row : ServiceRequest)
        → Keeps (audit_staged env input token stored row)
    unfolding audit_staged
    audit_staged-Keeps token stored row w = ground arith

    stage_stored-Evolves :
        (token : Text) (stored : StoredDocument) → Evolves (stage_stored env input token stored)
    unfolding stage_stored
    stage_stored-Evolves token stored =
        >>=-Evolves (create_request env input token stored) (audit_staged env input token stored)
          (create_request-Evolves token stored)
          (λ row.
            Keeps-Evolves (audit_staged env input token stored row)
              (audit_staged-Keeps token stored row))

    module _ (v : Vault) where
      store_and_stage-Evolves :
          (token : Text) (q : QuotaResult) → Evolves (store_and_stage v env input token q)
      unfolding store_and_stage
      store_and_stage-Evolves token q =
          >>=-Evolves (store_document v env input.document) (stage_stored env input token)
            (Keeps-Evolves (store_document v env input.document)
              (λ w. ap (λ (db : Db). db.requests) (store_document-keeps v env input.document w)))
            (stage_stored-Evolves token)

      charge_and_stage-Evolves : (token : Text) → Evolves (charge_and_stage v env input token)
      unfolding charge_and_stage
      charge_and_stage-Evolves token =
          >>=-Evolves (check_and_decrement_quota env input.org_id)
            (store_and_stage v env input token)
            (Keeps-Evolves (check_and_decrement_quota env input.org_id)
              (consume-Keeps input.org_id))
            (store_and_stage-Evolves token)

      pub intake-Evolves : Evolves (create_service_request v env input)
      unfolding create_service_request generate_notice_token
      intake-Evolves =
          transaction-Evolves (generate_notice_token env >>= charge_and_stage v env input) (
            >>=-Evolves (generate_notice_token env) (charge_and_stage v env input)
              (Keeps-Evolves (generate_notice_token env) (λ w. refl)) charge_and_stage-Evolves)
