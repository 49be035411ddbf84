-- ===== src/Demo/Fulfilled.antt =====
-- app/api/demo/fulfill/route.ts: the route follows the life cycle of a request.
use eps_dapp.Base.{
  ◌≡◌, refl, ap, sym, subst, ◌∙◌, Bool, Option, none, some, arith, Text, Bool-cases, inl, inr, ◌⊎◌,
  find, ℕ, is_empty,
}
use eps_dapp.Auth.{Session, UserAuthContext, require_user, text_of}
use eps_dapp.Db.{Db, ServiceRequest, ServiceStatus}
use eps_dapp.Effects.{
  World, Env, Error, Result, ok, err, crashed, >>=-inv, >>=-keeps, catch-keeps, ◌>>=◌, pure,
}
use eps_dapp.Http.{Field, Body, malformed_json, not_an_object, fields}
use eps_dapp.Hedera.{mint_and_transfer-keeps}
use eps_dapp.Hedera.Sdk.{Hedera}
use eps_dapp.Hedera.Transfer.{ProofNftTransferResult, ProofNftMetadata, mint_and_transfer_proof_nft}
use eps_dapp.Hedera.Routes.{submit_proof, attempt_nft}
use eps_dapp.Lifecycle.{
  terms, take_up, deliver, Reaches, here, onward, Follows, Follows-refl, UniqueIds,
}
use eps_dapp.Demo.Refines.{update-Follows, own-Follows}
use eps_dapp.Demo.Skip.{is_demo, id_of, is_own}
use eps_dapp.Demo.Fulfill.{
  FulfillResponse, submit_failed, fulfilled, service_message, topic, fulfilled_row,
  update_fulfilled, mint_and_update, submit_and_update, fulfill_open, fulfill_status, fulfill_found,
  fulfill_own, fulfill_body, fulfill_as, post_fulfill,
}

module _ (env : Env) (h : Hedera) where
  submit_proof-keeps :
      (topic message : Text) (w : World) → (submit_proof env h topic message w).1.db ≡ w.db
  unfolding submit_proof
  submit_proof-keeps topic message w = ground arith

  attempt-keeps :
      (case topic : Text) (number : ℕ) (w : World)
      → (attempt_nft env h case topic number w).1.db ≡ w.db
  attempt-keeps case topic number w =
      let meta : ProofNftMetadata = record {
        case_id = case;
        hcs_topic_id = some topic;
        hcs_sequence_number = some number;
      } in
      catch-keeps (λ w. w.db) (mint_and_transfer_proof_nft h meta >>= λ nft. pure (nft, none))
        (λ e. pure (none, some e)) w
        (>>=-keeps (λ w. w.db) (mint_and_transfer_proof_nft h meta) (λ nft. pure (nft, none)) w
          (mint_and_transfer-keeps h meta w) (λ nft w'. refl))
        (λ e w'. refl)

  fulfilled_row_lem :
      (now : ℕ) (sent : Text × ℕ) (nft : Option ProofNftTransferResult) (r : ServiceRequest)
      → (terms (fulfilled_row env h now sent nft r) ≡ terms r)
        × ((fulfilled_row env h now sent nft r).status ≡ ServiceStatus.confirmed)
        × ((fulfilled_row env h now sent nft r).tx_signature ≡ r.tx_signature)
  fulfilled_row_lem now sent none r = (refl, refl, refl)
  fulfilled_row_lem now sent (some nft) r = ground arith

  module _ (p : ServiceRequest → Bool) (r : ServiceRequest) (now : ℕ)
      (reached : Reaches r.status ServiceStatus.confirmed) where
    update_fulfilled-Follows :
        (sent : Text × ℕ) (nft : Option ProofNftTransferResult × Option Error) (w : World)
        → UniqueIds w.db
        → find p w.db.requests ≡ some r
        → Follows w.db.requests (update_fulfilled env h r now sent nft w).1.db.requests
    update_fulfilled-Follows sent nft w unique e =
        update-Follows env p (fulfilled_row env h now sent nft.0) r
          (λ row. fulfilled row.id row.status sent.0 sent.1 nft.0 nft.1 now) w unique e
          (record {
            same_terms = (fulfilled_row_lem now sent nft.0 r).0;
            reached = subst (Reaches r.status) (sym (fulfilled_row_lem now sent nft.0 r).1) reached;
            keeps_signature = λ signature k. (fulfilled_row_lem now sent nft.0 r).2 ∙ k;
          })

    mint_and_update-Follows :
        (sent : Text × ℕ) (w : World)
        → UniqueIds w.db
        → find p w.db.requests ≡ some r
        → Follows w.db.requests (mint_and_update env h r now sent w).1.db.requests
    unfolding mint_and_update
    mint_and_update-Follows sent w unique e =
        let same = attempt-keeps r.id (topic env h) sent.1 w in
        let w' = (attempt_nft env h r.id (topic env h) sent.1 w).1 in
        >>=-inv (λ s. Follows w.db.requests s.1.db.requests)
          (attempt_nft env h r.id (topic env h) sent.1) w (update_fulfilled env h r now sent)
          (λ nft k.
            subst
              (λ (db : Db).
                Follows db.requests (update_fulfilled env h r now sent nft w').1.db.requests)
              same
              (update_fulfilled-Follows sent nft w' (subst UniqueIds (sym same) unique)
                (ap (λ (db : Db). find p db.requests) same ∙ e)))
          (λ s f k.
            subst (λ (db : Db). Follows w.db.requests db.requests) (sym same)
              (Follows-refl w.db.requests))

    submit_and_update-Follows :
        (w : World)
        → UniqueIds w.db
        → find p w.db.requests ≡ some r
        → Follows w.db.requests (submit_and_update env h r now w).1.db.requests
    unfolding submit_and_update
    submit_and_update-Follows w unique e =
        go (submit_proof env h (topic env h) (service_message r now) w).0
          (submit_proof env h (topic env h) (service_message r now) w).1
          (submit_proof-keeps (topic env h) (service_message r now) w)
      where
        go :
            (answer : Result (Text × ℕ)) (w' : World)
            → w'.db ≡ w.db
            → Follows w.db.requests
                (elim answer as (λ x. Result FulfillResponse × World) [
                  | ok sent ↦ mint_and_update env h r now sent w'
                  | err e ↦ (ok (submit_failed e), w')
                  | crashed ↦ (crashed, w')
                ]).1.db.requests
        go (ok sent) w' same =
            subst
              (λ (db : Db). Follows db.requests (mint_and_update env h r now sent w').1.db.requests)
              same
              (mint_and_update-Follows sent w' (subst UniqueIds (sym same) unique)
                (ap (λ (db : Db). find p db.requests) same ∙ e))
        go (err x) w' same =
            subst (λ (db : Db). Follows w.db.requests db.requests) (sym same)
              (Follows-refl w.db.requests)
        go crashed w' same =
            subst (λ (db : Db). Follows w.db.requests db.requests) (sym same)
              (Follows-refl w.db.requests)

  open-Follows :
      (p : ServiceRequest → Bool) (r : ServiceRequest) (w : World)
      → Reaches r.status ServiceStatus.confirmed
      → UniqueIds w.db
      → find p w.db.requests ≡ some r
      → Follows w.db.requests (fulfill_open env h r w).1.db.requests
  unfolding fulfill_open
  open-Follows p r w reached unique e = elim (moved_or_same) [
    | inl same ↦
        subst (λ (db : Db). Follows w.db.requests db.requests) (sym same)
          (Follows-refl w.db.requests)
    | inr moved ↦
        subst (λ (db : Db). Follows w.db.requests db.requests) (sym moved)
          (submit_and_update-Follows p r (env.now w.tick) reached w unique e)
  ]
    where
      moved_or_same :
          ((fulfill_open env h r w).1.db ≡ w.db)
          ⊎ ((fulfill_open env h r w).1.db ≡ (submit_and_update env h r (env.now w.tick) w).1.db)
      moved_or_same = ground arith

  status-Follows :
      (p : ServiceRequest → Bool) (r : ServiceRequest) (status : ServiceStatus) (w : World)
      → UniqueIds w.db
      → find p w.db.requests ≡ some r
      → r.status ≡ status
      → Follows w.db.requests (fulfill_status env h r status w).1.db.requests
  unfolding fulfill_status
  status-Follows p r ServiceStatus.staged w unique e is =
      open-Follows p r w
        (subst (λ s. Reaches s ServiceStatus.confirmed) (sym is)
          (onward take_up (onward deliver here)))
        unique e
  status-Follows p r ServiceStatus.in_progress w unique e is =
      open-Follows p r w
        (subst (λ s. Reaches s ServiceStatus.confirmed) (sym is) (onward deliver here)) unique e
  status-Follows p r ServiceStatus.confirmed w unique e is = Follows-refl w.db.requests
  status-Follows p r ServiceStatus.failed w unique e is = Follows-refl w.db.requests

  found-Follows :
      (p : ServiceRequest → Bool) (found : Option ServiceRequest) (w : World)
      → UniqueIds w.db
      → find p w.db.requests ≡ found
      → Follows w.db.requests (fulfill_found env h found w).1.db.requests
  unfolding fulfill_found
  found-Follows p none w unique e = Follows-refl w.db.requests
  found-Follows p (some r) w unique e = status-Follows p r r.status w unique e refl

  fulfill_own-Follows :
      (ctx : UserAuthContext) (id : Option Text) (w : World)
      → UniqueIds w.db
      → Follows w.db.requests (fulfill_own env h ctx id w).1.db.requests
  unfolding fulfill_own
  fulfill_own-Follows ctx none w unique = Follows-refl w.db.requests
  fulfill_own-Follows ctx (some id) w unique =
      own-Follows env (is_own id ctx.user_id) (fulfill_found env h) w
        (found-Follows (is_own id ctx.user_id)) unique

  fulfill_body-Follows :
      (ctx : UserAuthContext) (body : Body Field) (w : World)
      → UniqueIds w.db
      → Follows w.db.requests (fulfill_body env h ctx body w).1.db.requests
  unfolding fulfill_body
  fulfill_body-Follows ctx malformed_json w unique = Follows-refl w.db.requests
  fulfill_body-Follows ctx not_an_object w unique = Follows-refl w.db.requests
  fulfill_body-Follows ctx (fields id) w unique = fulfill_own-Follows ctx (id_of id) w unique

  -- Fulfilling a request by a proof on Hedera, whatever comes of it, follows the life cycle: every
  -- request keeps its place, what was asked for and a signature on record, and its status is reached
  -- from the one that it had. Ids are unique.
  pub fulfill-Follows :
      (session : Session) (body : Body Field) (w : World)
      → UniqueIds w.db
      → Follows w.db.requests (post_fulfill env h session body w).1.db.requests
  unfolding post_fulfill fulfill_as require_user
  fulfill-Follows session body w unique = elim (Bool-cases (is_demo h.variables)) [
    | inl e ↦ elim (Bool-cases (is_empty (text_of session.user_id))) [
      | inl k ↦ simp (e, k) (Follows-refl w.db.requests)
      | inr k ↦
          simp (e, k)
            (fulfill_body-Follows
              (record { user_id = text_of session.user_id; org_id = session.org_id }) body w unique)
    ]
    | inr e ↦ simp e (Follows-refl w.db.requests)
  ]
