-- ===== src/System/Billing.antt =====
-- app/api/webhooks/stripe/route.ts and app/api/admin/comp-grant/route.ts: what is paid for or granted
-- leaves the requests alone.
use eps_dapp.Base.{
  false, ℕ, refl, Option, none, some, arith, Text, Bool-cases, inl, inr, is_empty, ◌||◌, text_eq,
}
use eps_dapp.Auth.{Session, AuthContext, require_org_admin}
use eps_dapp.Db.{Organization, Subscription}
use eps_dapp.Effects.{Env, Result, ok, err, crashed, ◌>>=◌, ◌>>◌, pure, find_first_subscription}
use eps_dapp.Grant.{
  GrantBody, malformed_json, parsed, put_grant, audit_grant, grant_found, grant_to, grant,
  grant_target, grant_as, post_grant,
}
use eps_dapp.Webhook.{
  Stripe, StripeEvent, StripeEventKind, CheckoutSession, checkout_completed, other_kind,
  upsert_organization, upsert_subscription, apply_checkout_completed, apply_kind, record_event,
  apply_event, deduped, handle_event, handle_constructed, get_stripe, post, attributed_org,
  text_or_empty, received,
}
use eps_dapp.Lifecycle.{same-Evolved}
use eps_dapp.System.Rules.{
  Keeps, Evolves, Keeps-Evolves, catch-Evolves, >>=-Evolves, transaction-Evolves,
}

module _ (env : Env) where
  upsert_organization-Keeps : (clerk : Text) → Keeps (upsert_organization env clerk)
  unfolding upsert_organization
  upsert_organization-Keeps clerk w = ground arith

  upsert_subscription-Keeps :
      (id tier : Text) (o : Organization) → Keeps (upsert_subscription env id tier o)
  unfolding upsert_subscription
  upsert_subscription-Keeps id tier o w = ground arith

  checkout-Evolves : (s : CheckoutSession) → Evolves (apply_checkout_completed env s)
  unfolding apply_checkout_completed
  checkout-Evolves s w unique =
      elim (Bool-cases (
        is_empty (attributed_org s)
        || (is_empty (text_or_empty s.metadata_tier) || is_empty (text_or_empty s.subscription)))) [
          | inl e ↦ same-Evolved w.db _ unique (ground (arith, e))
          | inr e ↦ simp e (
              >>=-Evolves (upsert_organization env (attributed_org s))
                (upsert_subscription env (text_or_empty s.subscription)
                  (text_or_empty s.metadata_tier))
                (Keeps-Evolves (upsert_organization env (attributed_org s))
                  (upsert_organization-Keeps (attributed_org s)))
                (λ o.
                  Keeps-Evolves (upsert_subscription env _ _ o) (upsert_subscription-Keeps _ _ o))
                w unique)
        ]

  kind-Evolves : (kind : StripeEventKind) → Evolves (apply_kind env kind)
  unfolding apply_kind
  kind-Evolves (checkout_completed s) = checkout-Evolves s
  kind-Evolves other_kind = Keeps-Evolves (apply_kind env other_kind) (λ w. refl)

  record_event-Keeps : (id : Text) → Keeps (record_event env id)
  unfolding record_event
  record_event-Keeps id w = ground arith

  event-Evolves : (event : StripeEvent) → Evolves (handle_event env event)
  unfolding handle_event apply_event deduped
  event-Evolves event =
      catch-Evolves (apply_event env event) (deduped)
        (transaction-Evolves
          (record_event env event.id
            >>= (λ recorded. apply_kind env event.kind >> pure (received false)))
          (>>=-Evolves (record_event env event.id)
            (λ recorded. apply_kind env event.kind >> pure (received false))
            (Keeps-Evolves (record_event env event.id) (record_event-Keeps event.id))
            (λ recorded.
              >>=-Evolves (apply_kind env event.kind) (λ _. pure (received false))
                (kind-Evolves event.kind)
                (λ _. Keeps-Evolves (pure (received false)) (λ w. refl)))))
        (λ e. Keeps-Evolves (deduped e) (λ w. ground arith))

  constructed-Evolves : (event : Option StripeEvent) → Evolves (handle_constructed env event)
  unfolding handle_constructed
  constructed-Evolves none = Keeps-Evolves (handle_constructed env none) (λ w. refl)
  constructed-Evolves (some event) = event-Evolves event

  module _ (stripe : Stripe) where
    get_stripe-Keeps : Keeps (get_stripe env stripe)
    unfolding get_stripe
    get_stripe-Keeps w = ground arith

    handled-Evolves :
        (signature : Option Text) (payload : Text)
        → Evolves (
            get_stripe env stripe
            >> handle_constructed env (
                stripe.construct_event payload
                  (text_or_empty signature)
                  (text_or_empty stripe.webhook_secret)))
    handled-Evolves signature payload =
        >>=-Evolves (get_stripe env stripe)
          (λ _. handle_constructed env (
            stripe.construct_event payload (text_or_empty signature)
              (text_or_empty stripe.webhook_secret)))
          (Keeps-Evolves (get_stripe env stripe) get_stripe-Keeps) (λ _. constructed-Evolves _)

    pub webhook-Evolves :
        (signature : Option Text) (payload : Text) → Evolves (post env stripe signature payload)
    unfolding post
    webhook-Evolves signature payload w unique =
        elim (Bool-cases (is_empty (text_or_empty stripe.webhook_secret))) [
          | inl e ↦ same-Evolved w.db _ unique (ground (arith, e))
          | inr e ↦ elim (Bool-cases (is_empty (text_or_empty signature))) [
            | inl k ↦ same-Evolved w.db _ unique (ground (arith, e, k))
            | inr k ↦ simp (e, k) (handled-Evolves signature payload w unique)
          ]
        ]

  module _ (actor : AuthContext) (target : Text) where
    put_grant-Keeps :
        (now : ℕ) (org : Organization) (found : Option Subscription)
        → Keeps (put_grant env actor target now org found)
    unfolding put_grant
    put_grant-Keeps now org none w = ground arith
    put_grant-Keeps now org (some s) w = ground arith

    audit_grant-Keeps : (now : ℕ) (s : Subscription) → Keeps (audit_grant env actor target now s)
    unfolding audit_grant
    audit_grant-Keeps now s w = ground arith

    grant_to-Evolves : (now : ℕ) (org : Organization) → Evolves (grant_to env actor target now org)
    unfolding grant_to grant_found
    grant_to-Evolves now org =
        >>=-Evolves (find_first_subscription env (λ db s. text_eq s.org_id org.id))
          (grant_found env actor target now org)
          (Keeps-Evolves (find_first_subscription env (λ db s. text_eq s.org_id org.id))
            (λ w. ground arith))
          (λ found.
            >>=-Evolves (put_grant env actor target now org found)
              (audit_grant env actor target now)
              (Keeps-Evolves (put_grant env actor target now org found)
                (put_grant-Keeps now org found))
              (λ s. Keeps-Evolves (audit_grant env actor target now s) (audit_grant-Keeps now s)))

    grant_one-Evolves : (now : ℕ) → Evolves (grant env actor target now)
    unfolding grant
    grant_one-Evolves now =
        transaction-Evolves (upsert_organization env target >>= grant_to env actor target now) (
          >>=-Evolves (upsert_organization env target) (grant_to env actor target now)
            (Keeps-Evolves (upsert_organization env target) (upsert_organization-Keeps target))
            (grant_to-Evolves now))

  target-Evolves : (actor : AuthContext) (body : GrantBody) → Evolves (grant_target env actor body)
  unfolding grant_target
  target-Evolves actor malformed_json w unique = same-Evolved w.db _ unique refl
  target-Evolves actor (parsed none) w unique = same-Evolved w.db _ unique refl
  target-Evolves actor (parsed (some target)) w unique = elim (Bool-cases (is_empty target)) [
    | inl e ↦ same-Evolved w.db _ unique (ground (arith, e))
    | inr e ↦ simp e (grant_one-Evolves actor target (env.now w.tick) w unique)
  ]

  as-Evolves : (actor : Result AuthContext) (body : GrantBody) → Evolves (grant_as env actor body)
  unfolding grant_as
  as-Evolves (ok actor) body w unique = target-Evolves actor body w unique
  as-Evolves (err e) body w unique = same-Evolved w.db _ unique (ground arith)
  as-Evolves crashed body w unique = same-Evolved w.db _ unique refl

  pub grant-Evolves : (session : Session) (body : GrantBody) → Evolves (post_grant env session body)
  unfolding post_grant
  grant-Evolves session body = as-Evolves (require_org_admin session) body
