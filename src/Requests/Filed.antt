-- ===== src/Requests/Filed.antt =====
-- app/api/service-requests/route.ts: what an answer of `POST` says of the tables.
use mathlib.Core.List.{Memᴰ}
use eps_dapp.Base.{
  ◌≡◌, refl, ap, sym, subst, ◌∙◌, false, Option, none, some, ℕ, List, [], ◌∷◌, ◌++◌, map, arith,
  Text, Bool-cases, Option-cases, inl, inr, find, is_empty, mem-append_last,
}
use eps_dapp.Auth.{UserAuthContext, text_of}
use eps_dapp.Chains.Address.{is_evm_address}
use eps_dapp.Db.{ServiceRequest, Db}
use eps_dapp.Effects.{World, Env, Result, ok, crashed, err, is_ok, Result-cases, >>=-inv}
use eps_dapp.Quota.{QuotaResult, check_and_decrement_quota, consume-keeps}
use eps_dapp.Solana.{Rpc, assert_valid_recipient}
use eps_dapp.Ens.Resolver.{EnsClient}
use eps_dapp.Hedera.Sdk.{Hedera}
use eps_dapp.Hedera.{bare_requests, without_proofs, anchor-bare}
use eps_dapp.Intake.{has_clerk_id}
use eps_dapp.Requests.Input.{FilingInput}
use eps_dapp.Requests.Recipient.{ResolvedRecipient}
use eps_dapp.Requests.Outcome.{Says, is_filing, keeps-Says, quota_answer_lem, recipient_answer_lem}
use eps_dapp.Requests.Filing.{
  FilingResponse, created, quota_answer, recipient_answer, filed_row, connect_and_add, create_filed,
  filing_payload, anchor_filed, stage_filed, charge_and_file, check_and_file,
}

bare-append :
    (rows : List ServiceRequest) (row : ServiceRequest)
    → map without_proofs (rows ++ row ∷ []) ≡ map without_proofs rows ++ without_proofs row ∷ []
bare-append [] row = refl
bare-append (r ∷ rows) row = ap (λ s. without_proofs r ∷ s) (bare-append rows row)

module _ (env : Env) (rpc : Rpc) (ens : EnsClient) (h : Hedera) where
  module _ (ctx : UserAuthContext) (input : FilingInput) (r : ResolvedRecipient)
      (agent : Option Text) where
    -- The row that was made, of an organization or of none, is the last one.
    abbrev Added : World → ServiceRequest → Option Text → Db → Type 0
    Added w row org after =
        (filed_row ctx.user_id org input r agent (env.fresh_id w.tick) (env.now w.tick) ≡ row)
        × (after.requests ≡ w.db.requests ++ row ∷ [])

    connect-Added :
        (w : World) (row : ServiceRequest)
        → (connect_and_add
            (text_of ctx.org_id)
            (λ org. filed_row ctx.user_id org input r agent (env.fresh_id w.tick) (env.now w.tick))
            w.db).0
          ≡ ok row
        → (org : Option Text) × Added w row org
            (connect_and_add
              (text_of ctx.org_id)
              (λ org.
                filed_row ctx.user_id org input r agent (env.fresh_id w.tick) (env.now w.tick))
              w.db).1
    unfolding connect_and_add
    connect-Added w row e = elim (Bool-cases (is_empty (text_of ctx.org_id))) [
      | inl k ↦ (none, ground (arith, k))
      | inr k ↦ elim (Option-cases (find (has_clerk_id (text_of ctx.org_id)) w.db.organizations)) [
        | inl l ↦ absurd (ground (arith, k, l))
        | inr (o, l) ↦ (some o.id, ground (arith, k, l))
      ]
    ]

    create_filed-Added :
        (w : World) (row : ServiceRequest)
        → (create_filed env rpc ens h ctx input r agent w).0 ≡ ok row
        → (org : Option Text) × Added w row org
            (create_filed env rpc ens h ctx input r agent w).1.db
    unfolding create_filed
    create_filed-Added w row e = elim (Result-cases (env.answers w.tick)) [
      | inl (a, k) ↦
          let (org, added) = connect-Added w row (ground (arith, k)) in
          (org, (added.0, ground (arith, k, added.1)))
      | inr other ↦ absurd (ground (arith, other))
    ]

    filed_mem :
        (w : World) (row : ServiceRequest) (before mid after : Db) (org : Option Text)
        → Added w row org mid
        → bare_requests after ≡ bare_requests mid
        → Says ctx.user_id (created row.id row.status) before after
    filed_mem w row before mid after org added same =
        subst
          (λ row.
            (rows : List ServiceRequest)
            → bare_requests after ≡ map without_proofs (rows ++ row ∷ [])
            → Says ctx.user_id (created row.id row.status) before after)
          added.0
          (λ rows e. (
            filed_row ctx.user_id org input r agent (env.fresh_id w.tick) (env.now w.tick),
            record {
              same_id = refl;
              is_staged = refl;
              owned = refl;
              no_token = refl;
              no_document = refl;
              not_sent = refl;
            },
            subst
                (λ rows.
                  Memᴰ
                    (filed_row ctx.user_id org input r agent (env.fresh_id w.tick) (env.now w.tick))
                    rows)
                (sym (
                  e
                  ∙ bare-append rows (
                      filed_row ctx.user_id org input r agent (env.fresh_id w.tick)
                        (env.now w.tick))))
                (mem-append_last (map without_proofs rows) _),
          ))
          w.db.requests (same ∙ ap (map without_proofs) added.1)

    -- What an action leaves behind, if it returns.
    abbrev Tells : Db → Result FilingResponse × World → Type 0
    Tells before (answer, w') =
        (a : FilingResponse) → answer ≡ ok a → Says ctx.user_id a before w'.db

    stage-Tells :
        (before : Db) (w : World) → Tells before (stage_filed env rpc ens h ctx input r agent w)
    unfolding stage_filed anchor_filed
    stage-Tells before w a =
        >>=-inv (λ r. r.0 ≡ ok a → Says ctx.user_id a before r.1.db)
          (create_filed env rpc ens h ctx input r agent) w
          (anchor_filed env rpc ens h ctx input r agent)
          (λ row e k.
            let (org, added) = create_filed-Added w row e in
            let w' = (create_filed env rpc ens h ctx input r agent w).1 in
            let (same, answer) =
              anchor-bare env h row.id (filing_payload env rpc ens h ctx input r agent row) w' in
            subst
              (λ a.
                Says ctx.user_id a before
                  (anchor_filed env rpc ens h ctx input r agent row w').1.db)
              {x = created row.id row.status} (ground (arith, answer))
              (filed_mem w row before w'.db
                (anchor_filed env rpc ens h ctx input r agent row w').1.db org added
                (ground (arith, same, answer))))
          (λ s f e k. absurd (ground (arith, f)))

    refused-Tells :
        (w : World) (answer : Result FilingResponse × World)
        → answer.1 ≡ w
        → ((a : FilingResponse) → answer.0 ≡ ok a → is_filing a ≡ false)
        → Tells w.db answer
    refused-Tells w answer same refused a e =
        keeps-Says ctx.user_id a w.db answer.1.db (refused a e) (ap (λ w. w.db) same)

    charge-Tells : (w : World) → Tells w.db (charge_and_file env rpc ens h ctx input r agent w)
    unfolding charge_and_file
    charge-Tells w = elim (Bool-cases (is_empty (text_of ctx.org_id))) [
      | inl e ↦ simp e (stage-Tells w.db w)
      | inr e ↦ simp e (
          go (check_and_decrement_quota env (text_of ctx.org_id) w).0
            (check_and_decrement_quota env (text_of ctx.org_id) w).1
            (consume-keeps env (text_of ctx.org_id) w))
    ]
      where
        go :
            (charged : Result QuotaResult) (w' : World)
            → (is_ok charged ≡ false → w'.db ≡ w.db)
            → Tells w.db (elim charged [
              | ok quota ↦ stage_filed env rpc ens h ctx input r agent w'
              | err e ↦ quota_answer e w'
              | crashed ↦ (crashed, w')
            ])
        go (ok quota) w' keeps = stage-Tells w.db w'
        go (err e) w' keeps =
            subst (λ db. Tells db (quota_answer e w')) (keeps refl)
              (refused-Tells w' (quota_answer e w') (quota_answer_lem e w').0
                (quota_answer_lem e w').1)
        go crashed w' keeps = λ a h. absurd (ground (arith, h))

    pub check-Tells : (w : World) → Tells w.db (check_and_file env rpc ens h ctx input r agent w)
    unfolding check_and_file
    check-Tells w = elim (Bool-cases (is_evm_address r.wallet)) [
      | inl e ↦ simp e (charge-Tells w)
      | inr e ↦ simp e (go (assert_valid_recipient rpc r.wallet))
    ]
      where
        go :
            (checked : Result (List ℕ))
            → Tells w.db (elim checked [
              | ok key ↦ charge_and_file env rpc ens h ctx input r agent w
              | err e ↦ recipient_answer e w
              | crashed ↦ (crashed, w)
            ])
        go (ok key) = charge-Tells w
        go (err e) =
            refused-Tells w (recipient_answer e w) (recipient_answer_lem e w).0
              (recipient_answer_lem e w).1
        go crashed = λ a h. absurd (ground (arith, h))
