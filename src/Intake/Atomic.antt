-- ===== src/Intake/Atomic.antt =====
-- lib/intake.ts: what an intake that returns has done.
use mathlib.Core.List.{Memᴰ}
use eps_dapp.Base.{
  mem-append_last, ℕ, ◌+◌, ◌≡◌, refl, ap, sym, ◌∙◌, subst, some, [], ◌∷◌, ◌++◌, find, arith, Text,
  Option-cases, inl, inr,
}
use eps_dapp.Db.{Organization, ServiceRequest, ServiceStatus, Db}
use eps_dapp.Effects.{Env, World, ok, >>=-inv, transaction-inv, ◌>>=◌}
use eps_dapp.Memo.{build_service_memo}
use eps_dapp.Quota.{QuotaResult, check_and_decrement_quota, Charged, FindsLatest, consume-Charged}
use eps_dapp.Storage.{Vault, StoredDocument, store_document, store_document-keeps}
use eps_dapp.Hex.{to_hex}
use eps_dapp.Worker.{expected_memo}
use eps_dapp.Intake.Stage.{
  CreateServiceRequestInput, StagedServiceRequest, has_clerk_id, staged_row, staged_audit,
  answer_of, create_request, audit_staged, stage_stored, store_and_stage, charge_and_stage,
  generate_notice_token, create_service_request,
}

-- The request's row and its audit row were added, the row for the organization with the Clerk id;
-- the answer names the row, and the memo that the worker will send for it.
pub record Inserted (input : CreateServiceRequestInput) (before after : Db)
    (answer : StagedServiceRequest) : Type 0 where
  pub org : Organization
  pub now : ℕ
  pub audit_id : Text
  pub stored : StoredDocument
  pub found : find (has_clerk_id input.org_id) before.organizations ≡ some org
  pub same_digest : stored.sha256 ≡ answer.sha256
  pub same_key : stored.object_key ≡ answer.object_key
  pub row : ServiceRequest
  pub new_row : row ≡ staged_row input answer.notice_token answer.sha256 org.id answer.id now
  pub is_staged : row.status ≡ ServiceStatus.staged
  pub with_digest : row.document_sha256 ≡ some answer.sha256
  pub with_token : row.notice_token ≡ some answer.notice_token
  pub rows : after ≡ record before {
    requests = before.requests ++ row ∷ [];
    audit_log = before.audit_log ++ staged_audit audit_id input stored row ∷ [];
  }

-- And before that a unit of quota was consumed.
abbrev pub Staged : CreateServiceRequestInput → Db → Db → StagedServiceRequest → Type 0
Staged input before after answer =
    (now : ℕ) × (q : QuotaResult) × (mid : Db) × Charged input.org_id now before mid q
    × Inserted input mid after answer

module _ (env : Env) (input : CreateServiceRequestInput) where
  create_request_lem :
      (token : Text) (stored : StoredDocument) (row : ServiceRequest) (w : World)
      → (create_request env input token stored w).0 ≡ ok row
      → (o : Organization) × (find (has_clerk_id input.org_id) w.db.organizations ≡ some o)
        × (row ≡ staged_row input token stored.sha256 o.id (env.fresh_id w.tick) (env.now w.tick))
        × ((create_request env input token stored w).1.db
            ≡ record w.db { requests = w.db.requests ++ row ∷ [] })
  unfolding create_request
  create_request_lem token stored row w h =
      elim (Option-cases (find (has_clerk_id input.org_id) w.db.organizations)) [
        | inl e ↦ absurd (ground arith)
        | inr (o, e) ↦ (o, e, ground arith, ground arith)
      ]

  audit_staged_lem :
      (token : Text) (stored : StoredDocument) (row : ServiceRequest) (w : World)
      (answer : StagedServiceRequest)
      → (audit_staged env input token stored row w).0 ≡ ok answer
      → (answer ≡ answer_of token stored row)
        × ((audit_staged env input token stored row w).1.db ≡ record w.db {
          audit_log = w.db.audit_log ++ staged_audit (env.fresh_id w.tick) input stored row ∷ [];
        })
  unfolding audit_staged
  audit_staged_lem token stored row w answer h = ground arith

  stage_stored-Inserted :
      (token : Text) (stored : StoredDocument) (w : World) (answer : StagedServiceRequest)
      → (stage_stored env input token stored w).0 ≡ ok answer
      → Inserted input w.db (stage_stored env input token stored w).1.db answer
  unfolding stage_stored
  stage_stored-Inserted token stored w answer =
      >>=-inv (λ r. r.0 ≡ ok answer → Inserted input w.db r.1.db answer)
        (create_request env input token stored) w (audit_staged env input token stored)
        (λ row h k.
          let (o, found, same_row, db) = create_request_lem token stored row w h in
          let mid = (create_request env input token stored w).1 in
          let (same, after) = audit_staged_lem token stored row mid answer k in
          let back = sym same in
          let id_back = sym (ap (λ a. a.id) same ∙ ap (λ r. r.id) same_row) in
          record {
            org = o;
            now = env.now w.tick;
            audit_id = env.fresh_id mid.tick;
            stored = stored;
            found = found;
            same_digest = ap (λ a. a.sha256) (sym same);
            same_key = ap (λ a. a.object_key) (sym same);
            row = row;
            new_row = same_row ∙ λ i.
                staged_row input (back i).notice_token (back i).sha256 o.id (id_back i)
                  (env.now w.tick);
            is_staged = ap (λ r. r.status) same_row;
            with_digest =
                ap (λ r. r.document_sha256) same_row
                ∙ ap (λ (a : StagedServiceRequest). some a.sha256) (sym same);
            with_token =
                ap (λ r. r.notice_token) same_row
                ∙ ap (λ (a : StagedServiceRequest). some a.notice_token) (sym same);
            rows =
                after
                ∙ ap
                    (λ (d : Db). record d {
                      audit_log =
                          d.audit_log ++ staged_audit (env.fresh_id mid.tick) input stored row ∷ [];
                    })
                    db;
          })
        (λ r h k f. absurd (ground arith))

module _ (v : Vault) (env : Env) (input : CreateServiceRequestInput) where
  store_and_stage-Inserted :
      (token : Text) (q : QuotaResult) (w : World) (answer : StagedServiceRequest)
      → (store_and_stage v env input token q w).0 ≡ ok answer
      → Inserted input w.db (store_and_stage v env input token q w).1.db answer
  unfolding store_and_stage
  store_and_stage-Inserted token q w answer =
      >>=-inv (λ r. r.0 ≡ ok answer → Inserted input w.db r.1.db answer)
        (store_document v env input.document) w (stage_stored env input token)
        (λ stored h k.
          let mid = (store_document v env input.document w).1 in
          subst (λ d. Inserted input d (stage_stored env input token stored mid).1.db answer)
            (store_document-keeps v env input.document w)
            (stage_stored-Inserted env input token stored mid answer k))
        (λ r h k f. absurd (ground arith))

  charge_and_stage-Staged :
      (token : Text) (w : World) (answer : StagedServiceRequest)
      → FindsLatest env
      → (charge_and_stage v env input token w).0 ≡ ok answer
      → Staged input w.db (charge_and_stage v env input token w).1.db answer
  unfolding charge_and_stage
  charge_and_stage-Staged token w answer law =
      >>=-inv (λ r. r.0 ≡ ok answer → Staged input w.db r.1.db answer)
        (check_and_decrement_quota env input.org_id) w (store_and_stage v env input token)
        (λ q h k.
          let mid = (check_and_decrement_quota env input.org_id w).1 in
          (
            env.now (w.tick + 1),
            q,
            mid.db,
            consume-Charged env input.org_id w q law h,
            store_and_stage-Inserted token q mid answer k,
          ))
        (λ r h k f. absurd (ground arith))

  -- An intake that returns has consumed one unit of the organization's quota, added the request's
  -- row, STAGED and with the digest and the notice token of the answer, and its audit row.
  -- `findFirst` finds the latest subscription.
  pub intake-Staged :
      (w : World) (answer : StagedServiceRequest)
      → FindsLatest env
      → (create_service_request v env input w).0 ≡ ok answer
      → Staged input w.db (create_service_request v env input w).1.db answer
  unfolding create_service_request generate_notice_token
  intake-Staged w answer law =
      transaction-inv (λ r. r.0 ≡ ok answer → Staged input w.db r.1.db answer)
        (generate_notice_token env >>= charge_and_stage v env input) w
        (λ b e k.
          charge_and_stage-Staged (to_hex (env.random_bytes w.tick 16))
            (record w { tick = w.tick + 1 }) answer law (e ∙ k))
        (λ r h k f. absurd (ground arith))

staged_row-memo :
    (input : CreateServiceRequestInput) (token sha256 org id : Text) (now : ℕ)
    → expected_memo (staged_row input token sha256 org id now)
      ≡ build_service_memo (record { sha256 = sha256; notice_token = token; service_id = id })
unfolding expected_memo
staged_row-memo input token sha256 org id now = refl

-- After an intake that returns, a request is in the table for which the worker sends the memo of
-- the digest, the token and the id of intake's answer. `findFirst` finds the latest subscription.
pub intake-memo :
    (v : Vault) (env : Env) (input : CreateServiceRequestInput) (w : World)
    (answer : StagedServiceRequest)
    → FindsLatest env
    → (create_service_request v env input w).0 ≡ ok answer
    → (row : ServiceRequest) × Memᴰ row (create_service_request v env input w).1.db.requests
      × (expected_memo row
          ≡ build_service_memo (record {
            sha256 = answer.sha256;
            notice_token = answer.notice_token;
            service_id = answer.id;
          }))
intake-memo v env input w answer law h =
    let (_, _, mid, _, i) = intake-Staged v env input w answer law h in
    (
      i.row,
      subst (λ (d : Db). Memᴰ i.row d.requests) (sym i.rows) (mem-append_last mid.requests i.row),
      ap expected_memo i.new_row
          ∙ staged_row-memo input answer.notice_token answer.sha256 i.org.id answer.id i.now,
    )
