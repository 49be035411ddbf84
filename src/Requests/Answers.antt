-- ===== src/Requests/Answers.antt =====
-- app/api/service-requests/route.ts: the answers of `POST`, and the memo of what it files.
use eps_dapp.Base.{
  Option, none, some, List, [], ◌∷◌, map, ◌≡◌, refl, ap, sym, ◌∙◌, ◌++◌, arith, Text, codes,
  is_empty, inl, inr, Bool-cases,
}
use eps_dapp.Auth.{Session, UserAuthContext, require_user, text_of}
use eps_dapp.RateLimit.Fixed
use eps_dapp.Db.{ServiceRequest, ServiceStatus}
use eps_dapp.Effects.{World, Env, ok}
use eps_dapp.Memo.{build_service_memo}
use eps_dapp.Solana.{Rpc}
use eps_dapp.Ens.Resolver.{EnsClient}
use eps_dapp.Hedera.Sdk.{Hedera}
use eps_dapp.Http.{Body, malformed_json, not_an_object, fields, Caller}
use eps_dapp.Requests.Input.{RawInput, parse_input}
use eps_dapp.Requests.Filing.{
  FilingResponse, created, file_body, file_as, file_counted, post_service_request,
}
use eps_dapp.Requests.Outcome.{IsFiled, Says, keeps-Says}
use eps_dapp.Requests.Filed.{check-Tells}
use eps_dapp.Requests.Recipient.{ResolvedRecipient, resolve_recipient}
use eps_dapp.Requests.Outcome.{agent_name-keeps, recipient-keeps}
use eps_dapp.Ens.Resolver.{get_agent_ens_name}
use eps_dapp.Effects.{>>=-inv}
use eps_dapp.Base.{subst}
use mathlib.Core.List.{Memᴰ}
use eps_dapp.Hedera.{without_proofs}
use eps_dapp.Requests.Input.{FilingInput}
use eps_dapp.Requests.Filing.{check_and_file, file_resolved, file_parsed}
use eps_dapp.Worker.{expected_memo}

module _ (env : Env) (rpc : Rpc) (ens : EnsClient) (h : Hedera) where
  file_resolved-Tells :
      (ctx : UserAuthContext) (input : FilingInput) (r : Option ResolvedRecipient) (w : World)
      (a : FilingResponse)
      → (file_resolved env rpc ens h ctx input r w).0 ≡ ok a
      → Says ctx.user_id a w.db (file_resolved env rpc ens h ctx input r w).1.db
  unfolding file_resolved
  file_resolved-Tells ctx input none w a =
      λ e. keeps-Says ctx.user_id a w.db w.db (ground arith) refl
  file_resolved-Tells ctx input (some r) w a =
      >>=-inv (λ s. s.0 ≡ ok a → Says ctx.user_id a w.db s.1.db)
        (get_agent_ens_name ens h.variables) w (check_and_file env rpc ens h ctx input r)
        (λ agent k.
          subst
            (λ db.
              (check_and_file env rpc ens h ctx input r agent
                  (get_agent_ens_name ens h.variables w).1).0
                ≡ ok a
              → Says ctx.user_id a db
                  (check_and_file env rpc ens h ctx input r agent
                    (get_agent_ens_name ens h.variables w).1).1.db)
            (agent_name-keeps ens h.variables w)
            (check-Tells env rpc ens h ctx input r agent (get_agent_ens_name ens h.variables w).1
              a))
        (λ s f k e. absurd (ground (arith, f)))

  file_parsed-Tells :
      (ctx : UserAuthContext) (input : Option FilingInput) (w : World) (a : FilingResponse)
      → (file_parsed env rpc ens h ctx input w).0 ≡ ok a
      → Says ctx.user_id a w.db (file_parsed env rpc ens h ctx input w).1.db
  unfolding file_parsed
  file_parsed-Tells ctx none w a = λ e. keeps-Says ctx.user_id a w.db w.db (ground arith) refl
  file_parsed-Tells ctx (some input) w a =
      >>=-inv (λ s. s.0 ≡ ok a → Says ctx.user_id a w.db s.1.db)
        (resolve_recipient ens h.variables input) w (file_resolved env rpc ens h ctx input)
        (λ r k.
          subst
            (λ db.
              (file_resolved env rpc ens h ctx input r
                  (resolve_recipient ens h.variables input w).1).0
                ≡ ok a
              → Says ctx.user_id a db
                  (file_resolved env rpc ens h ctx input r
                    (resolve_recipient ens h.variables input w).1).1.db)
            (recipient-keeps ens h.variables input w)
            (file_resolved-Tells ctx input r (resolve_recipient ens h.variables input w).1 a))
        (λ s f k e. absurd (ground (arith, f)))

  body-Says :
      (ctx : UserAuthContext) (body : Body RawInput) (w : World) (a : FilingResponse)
      → (file_body env rpc ens h ctx body w).0 ≡ ok a
      → Says ctx.user_id a w.db (file_body env rpc ens h ctx body w).1.db
  unfolding file_body
  body-Says ctx malformed_json w a e = keeps-Says ctx.user_id a w.db w.db (ground arith) refl
  body-Says ctx not_an_object w a e = keeps-Says ctx.user_id a w.db w.db (ground arith) refl
  body-Says ctx (fields raw) w a e = file_parsed-Tells ctx (parse_input raw) w a e

  as-Says :
      (session : Session) (body : Body RawInput) (w : World) (a : FilingResponse)
      → (file_as env rpc ens h (require_user session) body w).0 ≡ ok a
      → Says
          (text_of session.user_id)
          a
          w.db
          (file_as env rpc ens h (require_user session) body w).1.db
  unfolding file_as require_user
  as-Says session body w a = elim (Bool-cases (is_empty (text_of session.user_id))) [
    | inl e ↦ simp e (λ h. keeps-Says (text_of session.user_id) a w.db w.db (ground arith) refl)
    | inr e ↦
        simp e (
          body-Says (record { user_id = text_of session.user_id; org_id = session.org_id }) body w
            a)
  ]

  counted-Says :
      (session : Session) (body : Body RawInput) (rl : Fixed.RateLimitResult) (w : World)
      (a : FilingResponse)
      → (file_counted env rpc ens h session body rl w).0 ≡ ok a
      → Says (text_of session.user_id) a w.db (file_counted env rpc ens h session body rl w).1.db
  unfolding file_counted
  counted-Says session body rl w a = elim (Bool-cases rl.ok) [
    | inl e ↦ simp e (as-Says session body w a)
    | inr e ↦ simp e (λ h. keeps-Says (text_of session.user_id) a w.db w.db (ground arith) refl)
  ]

  -- An answer of `POST` that says that a request was filed is right: the request is in the table,
  -- STAGED, under the session's user, with neither a document nor a notice token, and up to the
  -- columns of its proofs on Hedera as it was made. With any other answer that the route returns,
  -- every table is as before, the quota included. Nothing is said of a call that throws, as one
  -- does whose create fails after the charge.
  pub post-Says :
      (caller : Caller) (session : Session) (body : Body RawInput) (w : World) (a : FilingResponse)
      → (post_service_request env rpc ens h caller session body w).0 ≡ ok a
      → Says
          (text_of session.user_id)
          a
          w.db
          (post_service_request env rpc ens h caller session body w).1.db
  unfolding post_service_request
  post-Says caller session body w a e = counted-Says session body _ _ a e

-- The memo does not tell the columns of the Hedera proofs.
bare-memo :
    (row bare : ServiceRequest) (user id : Text)
    → without_proofs row ≡ bare
    → IsFiled user id bare
    → expected_memo row ≡ codes "||" ++ id
unfolding expected_memo build_service_memo
bare-memo row bare user id same filed =
    ap expected_memo same ∙ rw (filed.no_document, filed.no_token, filed.same_id) refl

mem-bare :
    (rows : List ServiceRequest) (bare : ServiceRequest)
    → Memᴰ bare (map without_proofs rows)
    → (row : ServiceRequest) × Memᴰ row rows × (without_proofs row ≡ bare)
mem-bare [] bare m = elim m [ ]
mem-bare (row ∷ rows) bare (Memᴰ.head e) = (row, Memᴰ.head refl, sym e)
mem-bare (row ∷ rows) bare (Memᴰ.tail m) =
    let (found, n, e) = mem-bare rows bare m in (found, Memᴰ.tail n, e)

module _ (env : Env) (rpc : Rpc) (ens : EnsClient) (h : Hedera) where
  -- A request that `POST` says it filed is in the table, and the memo that the worker sends for it
  -- is `||id`: it commits to no document and to no notice.
  pub filed-memo :
      (caller : Caller) (session : Session) (body : Body RawInput) (w : World) (id : Text)
      (status : ServiceStatus)
      → (post_service_request env rpc ens h caller session body w).0 ≡ ok (created id status)
      → (row : ServiceRequest) × Memᴰ row
          (post_service_request env rpc ens h caller session body w).1.db.requests
        × (expected_memo row ≡ codes "||" ++ id)
  filed-memo caller session body w id status e =
      let (bare, filed, m) = post-Says env rpc ens h caller session body w (created id status) e in
      let (row, n, same) =
        mem-bare (post_service_request env rpc ens h caller session body w).1.db.requests bare m in
      (row, n, bare-memo row bare (text_of session.user_id) id same filed)
