-- ===== src/Demo/Refines.antt =====
-- app/api/demo: both routes follow the life cycle of a request.
use eps_dapp.Base.{
  ◌≡◌, refl, sym, subst, Bool, Option, none, some, arith, Text, Bool-cases, inl, inr, ◌⊎◌, find,
  update_where, ◌+◌, is_empty,
}
use eps_dapp.Auth.{Session, UserAuthContext, require_user, text_of}
use eps_dapp.Db.{requests_table, ServiceRequest, ServiceStatus}
use eps_dapp.Failure.{has_request_id}
use eps_dapp.Variables.{Variables}
use eps_dapp.Effects.{World, Env, Result-cases, Action, ◌>>=◌, pure, update, find_unique}
use eps_dapp.Http.{Field, Body, malformed_json, not_an_object, fields}
use eps_dapp.Worker.{in_progress}
use eps_dapp.Lifecycle.{
  Advances, take_up, Reaches, here, onward, Follows, Follows-refl, UniqueIds, found-Follows,
}
use eps_dapp.Demo.Skip.{
  is_demo, advanced, id_of, is_own, skip_status, skip_found, skip_own, skip_body, skip_as,
  post_skip_payment,
}

module _ (env : Env) where
  -- The update of a request that was found, whatever comes of it.
  pub update-Follows :
      {A : Type 0} (p : ServiceRequest → Bool) (f : ServiceRequest → ServiceRequest)
      (r : ServiceRequest) (k : ServiceRequest → A) (w : World)
      → UniqueIds w.db
      → find p w.db.requests ≡ some r
      → Advances r (f r)
      → Follows w.db.requests
          ((update env requests_table (has_request_id r.id) f >>= λ row. pure (k row))
            w).1.db.requests
  update-Follows p f r k w unique e goes_on = elim (updated_or_not) [
    | inl rows ↦
        subst (Follows w.db.requests) (sym rows) (found-Follows p f w.db r unique e goes_on)
    | inr rows ↦ subst (Follows w.db.requests) (sym rows) (Follows-refl w.db.requests)
  ]
    where
      updated_or_not :
          (((update env requests_table (has_request_id r.id) f >>= λ row. pure (k row))
              w).1.db.requests
            ≡ update_where (has_request_id r.id) f w.db.requests)
          ⊎ (((update env requests_table (has_request_id r.id) f >>= λ row. pure (k row))
                w).1.db.requests
              ≡ w.db.requests)
      updated_or_not = ground arith

  skip_status-Follows :
      (p : ServiceRequest → Bool) (r : ServiceRequest) (status : ServiceStatus) (w : World)
      → UniqueIds w.db
      → find p w.db.requests ≡ some r
      → r.status ≡ status
      → Follows w.db.requests (skip_status env r status w).1.db.requests
  unfolding skip_status
  skip_status-Follows p r ServiceStatus.staged w unique e is =
      update-Follows p in_progress r (λ row. advanced row.id row.status) w unique e
        (record {
          same_terms = refl;
          reached = subst (λ s. Reaches s ServiceStatus.in_progress) (sym is) (onward take_up here);
          keeps_signature = λ signature k. k;
        })
  skip_status-Follows p r ServiceStatus.in_progress w unique e is = Follows-refl w.db.requests
  skip_status-Follows p r ServiceStatus.confirmed w unique e is = Follows-refl w.db.requests
  skip_status-Follows p r ServiceStatus.failed w unique e is = Follows-refl w.db.requests

  skip_found-Follows :
      (p : ServiceRequest → Bool) (found : Option ServiceRequest) (w : World)
      → UniqueIds w.db
      → find p w.db.requests ≡ found
      → Follows w.db.requests (skip_found env found w).1.db.requests
  unfolding skip_found
  skip_found-Follows p none w unique e = Follows-refl w.db.requests
  skip_found-Follows p (some r) w unique e = skip_status-Follows p r r.status w unique e refl

  -- The query for a request of the caller, and what follows it.
  pub own-Follows :
      {A : Type 0} (p : ServiceRequest → Bool) (next : Option ServiceRequest → Action A) (w : World)
      → ((found : Option ServiceRequest) (w : World)
          → UniqueIds w.db
          → find p w.db.requests ≡ found
          → Follows w.db.requests (next found w).1.db.requests)
      → UniqueIds w.db
      → Follows w.db.requests ((find_unique env requests_table p >>= next) w).1.db.requests
  own-Follows p next w then unique = elim (Result-cases (env.answers w.tick)) [
    | inl (a, e) ↦
        subst (Follows w.db.requests)
          {y = ((find_unique env requests_table p >>= next) w).1.db.requests} (ground (arith, e))
          (then (find p w.db.requests) (record w { tick = w.tick + 1 }) unique refl)
    | inr other ↦
        subst (Follows w.db.requests)
          {y = ((find_unique env requests_table p >>= next) w).1.db.requests}
          (ground (arith, other)) (Follows-refl w.db.requests)
  ]

  skip_own-Follows :
      (ctx : UserAuthContext) (id : Option Text) (w : World)
      → UniqueIds w.db
      → Follows w.db.requests (skip_own env ctx id w).1.db.requests
  unfolding skip_own
  skip_own-Follows ctx none w unique = Follows-refl w.db.requests
  skip_own-Follows ctx (some id) w unique =
      own-Follows (is_own id ctx.user_id) (skip_found env) w
        (skip_found-Follows (is_own id ctx.user_id)) unique

  skip_body-Follows :
      (ctx : UserAuthContext) (body : Body Field) (w : World)
      → UniqueIds w.db
      → Follows w.db.requests (skip_body env ctx body w).1.db.requests
  unfolding skip_body
  skip_body-Follows ctx malformed_json w unique = Follows-refl w.db.requests
  skip_body-Follows ctx not_an_object w unique = Follows-refl w.db.requests
  skip_body-Follows ctx (fields id) w unique = skip_own-Follows ctx (id_of id) w unique

  -- Skipping the payment, whatever comes of it, follows the life cycle: every request keeps its
  -- place, what was asked for and a signature on record, and its status is reached from the one
  -- that it had. Ids are unique.
  pub skip-Follows :
      (vars : Variables) (session : Session) (body : Body Field) (w : World)
      → UniqueIds w.db
      → Follows w.db.requests (post_skip_payment env vars session body w).1.db.requests
  unfolding post_skip_payment skip_as require_user
  skip-Follows vars session body w unique = elim (Bool-cases (is_demo vars)) [
    | inl e ↦ elim (Bool-cases (is_empty (text_of session.user_id))) [
      | inl k ↦ simp (e, k) (Follows-refl w.db.requests)
      | inr k ↦
          simp (e, k)
            (skip_body-Follows
              (record { user_id = text_of session.user_id; org_id = session.org_id }) body w unique)
    ]
    | inr e ↦ simp e (Follows-refl w.db.requests)
  ]
