-- ===== src/System/Filing.antt =====
-- app/api/service-requests/route.ts: a request that is filed is added to the table, and no other
-- changes but for its proofs on Hedera.
use eps_dapp.Base.{
  ◌≡◌, refl, ap, Option, none, some, any, find, arith, Text, Bool-cases, Option-cases, inl, inr,
  is_empty,
}
use eps_dapp.Auth.{Session, UserAuthContext, require_user, text_of}
use eps_dapp.Chains.Address.{is_evm_address}
use eps_dapp.Db.{Db, ServiceRequest}
use eps_dapp.Effects.{World, Env, Result, ok, err, crashed, pure, Result-cases}
use eps_dapp.Ens.Resolver.{EnsClient, get_agent_ens_name}
use eps_dapp.Failure.{has_request_id}
use eps_dapp.Hedera.Sdk.{Hedera}
use eps_dapp.Hedera.Tasks.{anchor_on_hedera}
use eps_dapp.Http.{Body, malformed_json, not_an_object, fields, Caller}
use eps_dapp.Intake.{has_clerk_id}
use eps_dapp.Lifecycle.{UniqueIds, Evolved, same-Evolved, Evolved-trans, added-Evolved}
use eps_dapp.Quota.{QuotaResult, check_and_decrement_quota}
use eps_dapp.RateLimit.Fixed
use eps_dapp.Requests.Filing.{
  FilingResponse, created, name_unresolved, invalid_input, invalid_json, add_request, quota_answer,
  recipient_answer, filed_row, connect_and_add, create_filed, filing_payload, anchor_filed,
  stage_filed, charge_and_file, check_and_file, file_resolved, file_parsed, file_body, file_as,
  file_counted, post_service_request,
}
use eps_dapp.Requests.Input.{RawInput, FilingInput, parse_input}
use eps_dapp.Requests.Recipient.{ResolvedRecipient, resolve_recipient}
use eps_dapp.Solana.{Rpc, assert_valid_recipient}
use eps_dapp.Requests.Outcome.{quota_answer_lem, agent_name-keeps, recipient-keeps}
use eps_dapp.System.Proofs.{anchor-Evolves}
use eps_dapp.System.Rules.{Evolves, Keeps-Evolves, >>=-Evolves}
use eps_dapp.System.Intake.{consume-Keeps}

module _ (env : Env) (rpc : Rpc) (ens : EnsClient) (h : Hedera) where
  module _ (ctx : UserAuthContext) (input : FilingInput) (r : ResolvedRecipient)
      (agent : Option Text) where
    add_request-Evolved :
        (row : ServiceRequest) (db after : Db)
        → UniqueIds db
        → after.requests ≡ (add_request row db).1.requests
        → Evolved db after
    add_request-Evolved row db after unique e =
        elim (Bool-cases (any (has_request_id row.id) db.requests)) [
          | inl t ↦ same-Evolved db after unique (ground (arith, e, t))
          | inr t ↦ added-Evolved db after row unique t (ground (arith, e, t))
        ]

    connect-Evolved :
        (clerk : Text) (row : Option Text → ServiceRequest) (db after : Db)
        → UniqueIds db
        → after.requests ≡ (connect_and_add clerk row db).1.requests
        → Evolved db after
    unfolding connect_and_add
    connect-Evolved clerk row db after unique e = elim (Bool-cases (is_empty clerk)) [
      | inl k ↦ add_request-Evolved (row none) db after unique (ground (arith, e, k))
      | inr k ↦ elim (Option-cases (find (has_clerk_id clerk) db.organizations)) [
        | inl n ↦ same-Evolved db after unique (ground (arith, e, k, n))
        | inr (o, f) ↦
            add_request-Evolved (row (some o.id)) db after unique (ground (arith, e, k, f))
      ]
    ]

    create_filed-Evolves : Evolves (create_filed env rpc ens h ctx input r agent)
    unfolding create_filed
    create_filed-Evolves w unique = elim (Result-cases (env.answers w.tick)) [
      | inl (a, k) ↦
          connect-Evolved (text_of ctx.org_id)
            (λ org. filed_row ctx.user_id org input r agent (env.fresh_id w.tick) (env.now w.tick))
            w.db _ unique (ground (arith, k))
      | inr other ↦ same-Evolved w.db _ unique (ground (arith, other))
    ]

    stage_filed-Evolves : Evolves (stage_filed env rpc ens h ctx input r agent)
    unfolding stage_filed anchor_filed
    stage_filed-Evolves =
        >>=-Evolves (create_filed env rpc ens h ctx input r agent)
          (anchor_filed env rpc ens h ctx input r agent) create_filed-Evolves
          (λ row.
            >>=-Evolves
              (anchor_on_hedera env h row.id (filing_payload env rpc ens h ctx input r agent row))
              (λ _. pure (created row.id row.status)) (anchor-Evolves env h row.id _)
              (λ _. Keeps-Evolves (pure (created row.id row.status)) (λ w. refl)))

    charge-Evolves : Evolves (charge_and_file env rpc ens h ctx input r agent)
    unfolding charge_and_file quota_answer
    charge-Evolves w unique = elim (Bool-cases (is_empty (text_of ctx.org_id))) [
      | inl e ↦ simp e (stage_filed-Evolves w unique)
      | inr e ↦ simp e (
          go (check_and_decrement_quota env (text_of ctx.org_id) w).0
            (check_and_decrement_quota env (text_of ctx.org_id) w).1
            (same-Evolved w.db _ unique (consume-Keeps env (text_of ctx.org_id) w)))
    ]
      where
        go :
            (charged : Result QuotaResult) (w' : World)
            → Evolved w.db w'.db
            → Evolved w.db
                (elim charged as (λ x. Result FilingResponse × World) [
                  | ok quota ↦ stage_filed env rpc ens h ctx input r agent w'
                  | err e ↦ quota_answer e w'
                  | crashed ↦ (crashed, w')
                ]).1.db
        go (ok quota) w' so_far = Evolved-trans so_far (stage_filed-Evolves w' so_far.unique)
        go (err e) w' so_far = Evolved-trans so_far (
            same-Evolved w'.db _ so_far.unique
              (ap (λ (w : World). w.db.requests) (quota_answer_lem e w').0))
        go crashed w' so_far = so_far

    check-Evolves : Evolves (check_and_file env rpc ens h ctx input r agent)
    unfolding check_and_file recipient_answer
    check-Evolves w unique = elim (Bool-cases (is_evm_address r.wallet)) [
      | inl e ↦ simp e (charge-Evolves w unique)
      | inr e ↦ elim (Result-cases (assert_valid_recipient rpc r.wallet)) [
        | inl (key, k) ↦ simp (e, k) (charge-Evolves w unique)
        | inr other ↦ same-Evolved w.db _ unique (ground (arith, e, other))
      ]
    ]

  file_resolved-Evolves :
      (ctx : UserAuthContext) (input : FilingInput) (r : Option ResolvedRecipient)
      → Evolves (file_resolved env rpc ens h ctx input r)
  unfolding file_resolved
  file_resolved-Evolves ctx input none = Keeps-Evolves (pure name_unresolved) (λ w. refl)
  file_resolved-Evolves ctx input (some r) =
      >>=-Evolves (get_agent_ens_name ens h.variables) (check_and_file env rpc ens h ctx input r)
        (Keeps-Evolves (get_agent_ens_name ens h.variables)
          (λ w. ap (λ (db : Db). db.requests) (agent_name-keeps ens h.variables w)))
        (check-Evolves ctx input r)

  file_parsed-Evolves :
      (ctx : UserAuthContext) (input : Option FilingInput)
      → Evolves (file_parsed env rpc ens h ctx input)
  unfolding file_parsed
  file_parsed-Evolves ctx none = Keeps-Evolves (pure invalid_input) (λ w. refl)
  file_parsed-Evolves ctx (some input) =
      >>=-Evolves (resolve_recipient ens h.variables input) (file_resolved env rpc ens h ctx input)
        (Keeps-Evolves (resolve_recipient ens h.variables input)
          (λ w. ap (λ (db : Db). db.requests) (recipient-keeps ens h.variables input w)))
        (file_resolved-Evolves ctx input)

  file_body-Evolves :
      (ctx : UserAuthContext) (body : Body RawInput) → Evolves (file_body env rpc ens h ctx body)
  unfolding file_body
  file_body-Evolves ctx malformed_json = Keeps-Evolves (pure invalid_json) (λ w. refl)
  file_body-Evolves ctx not_an_object = Keeps-Evolves (pure invalid_input) (λ w. refl)
  file_body-Evolves ctx (fields raw) = file_parsed-Evolves ctx (parse_input raw)

  file_as-Evolves :
      (session : Session) (body : Body RawInput)
      → Evolves (file_as env rpc ens h (require_user session) body)
  unfolding file_as require_user
  file_as-Evolves session body w unique = elim (Bool-cases (is_empty (text_of session.user_id))) [
    | inl e ↦ same-Evolved w.db _ unique (ground (arith, e))
    | inr e ↦ simp e (
        file_body-Evolves (record { user_id = text_of session.user_id; org_id = session.org_id })
          body w unique)
  ]

  file_counted-Evolves :
      (session : Session) (body : Body RawInput) (rl : Fixed.RateLimitResult)
      → Evolves (file_counted env rpc ens h session body rl)
  unfolding file_counted
  file_counted-Evolves session body rl w unique = elim (Bool-cases rl.ok) [
    | inl e ↦ simp e (file_as-Evolves session body w unique)
    | inr e ↦ same-Evolved w.db _ unique (ground (arith, e))
  ]

  pub filing-Evolves :
      (caller : Caller) (session : Session) (body : Body RawInput)
      → Evolves (post_service_request env rpc ens h caller session body)
  unfolding post_service_request
  filing-Evolves caller session body w unique = file_counted-Evolves session body _ _ unique
