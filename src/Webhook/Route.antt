-- ===== src/Webhook/Route.antt =====
-- app/api/webhooks/stripe/route.ts: `POST` and `applyCheckoutCompleted`, with `getStripe` of
-- lib/stripe.ts (its client is kept, but the key that it checks does not change).
use eps_dapp.Base.{
  ℕ, Bool, true, false, ◌||◌, Option, none, some, [], ◌∷◌, ◌++◌, find, update_where, or_else,
  if◌then◌else◌, Text, codes, text_eq, is_empty, starts_with,
}
use eps_dapp.Calendar.{next_period_end}
use eps_dapp.Db.{
  Organization, Subscription, SubscriptionStatus, WebhookEvent, Db, webhook_events_table,
}
use eps_dapp.Effects.{
  Action, Env, Error, Result, ok, ◌>>=◌, ◌>>◌, pure, throw, transaction, catch, statement, create,
  unique_violation, not_set, live_key_refused,
}

-- `session.subscription`: an id, an expanded object with an id, or null.
pub record CheckoutSession : Type 0 where
  pub client_reference_id : Option Text
  pub metadata_org_id : Option Text
  pub metadata_tier : Option Text
  pub subscription : Option Text

pub data StripeEventKind : Type 0 where
  checkout_completed : CheckoutSession → StripeEventKind
  other_kind : StripeEventKind

pub record StripeEvent : Type 0 where
  pub id : Text
  pub kind : StripeEventKind

-- The environment variables, and `stripe.webhooks.constructEvent`: payload, signature and secret
-- to an event, none where it throws.
pub record Stripe : Type 0 where
  pub webhook_secret : Option Text
  pub secret_key : Option Text
  pub construct_event : Text → Text → Text → Option StripeEvent

-- The responses: 500, 400, and 200 with the flag `deduped`.
pub data WebhookResponse : Type 0 where
  secret_not_set missing_signature invalid_signature : WebhookResponse
  received : Bool → WebhookResponse

-- `if (!value)` on text that may be missing.
abbrev pub text_or_empty : Option Text → Text
text_or_empty value = or_else value []

-- `client_reference_id ?? metadata?.orgId ?? null`.
abbrev pub attributed_org : CheckoutSession → Text
attributed_org s = elim s.client_reference_id [
  | some id ↦ id
  | none ↦ text_or_empty s.metadata_org_id
]

abbrev pub has_clerk_id : Text → Organization → Bool
has_clerk_id clerk o = text_eq o.clerk_org_id clerk

abbrev pub has_subscription_id : Text → Subscription → Bool
has_subscription_id id s = text_eq s.id id

abbrev pub has_event_id : Text → WebhookEvent → Bool
has_event_id id e = text_eq e.event_id id

-- `organization.upsert`.
abbrev pub upsert_org_found : Text → Text → Db → Option Organization → Result Organization × Db
upsert_org_found clerk fresh db (some o) = (ok o, db)
upsert_org_found clerk fresh db none =
    let o : Organization = record {
      id = fresh;
      clerk_org_id = clerk;
      name = clerk;
      owner_email = none;
    } in
    (ok o, record db { organizations = db.organizations ++ o ∷ [] })

abbrev pub activated : Subscription → Subscription
activated s = record s { status = SubscriptionStatus.active }

-- `subscription.upsert`.
abbrev pub upsert_subscription_found :
    Text → Text → Text → ℕ → Db → Option Subscription → Result (Unit {0}) × Db
upsert_subscription_found id org tier now db (some s) = (
  ok tt,
  record db { subscriptions = update_where (has_subscription_id id) activated db.subscriptions },
)
upsert_subscription_found id org tier now db none = (
  ok tt,
  record db {
    subscriptions =
        db.subscriptions
        ++ record {
          id = id;
          org_id = org;
          tier_id = tier;
          status = SubscriptionStatus.active;
          period_start = now;
          period_end = next_period_end now;
          usage_count = 0;
        }
          ∷ [];
  },
)

-- The handler of the errors.
unfoldable pub deduped : Error → Action WebhookResponse
deduped unique_violation = pure (received true)
deduped e = throw e

module _ (env : Env) where
  unfoldable pub upsert_organization : Text → Action Organization
  upsert_organization clerk w =
      statement env
        (λ db.
          upsert_org_found clerk (env.fresh_id w.tick) db
            (find (has_clerk_id clerk) db.organizations))
        w

  unfoldable pub upsert_subscription : Text → Text → Organization → Action (Unit {0})
  upsert_subscription id tier org w =
      statement env
        (λ db.
          upsert_subscription_found id org.id tier (env.now w.tick) db
            (find (has_subscription_id id) db.subscriptions))
        w

  -- `applyCheckoutCompleted(tx, session)`.
  unfoldable pub apply_checkout_completed : CheckoutSession → Action (Unit {0})
  apply_checkout_completed s =
      let org = attributed_org s in
      let tier = text_or_empty s.metadata_tier in
      let id = text_or_empty s.subscription in
      if is_empty org || (is_empty tier || is_empty id)
      then pure tt
      else upsert_organization org >>= upsert_subscription id tier

  unfoldable pub apply_kind : StripeEventKind → Action (Unit {0})
  apply_kind (checkout_completed s) = apply_checkout_completed s
  apply_kind other_kind = pure tt

  -- The dedupe guard.
  unfoldable pub record_event : Text → Action WebhookEvent
  record_event id w =
      create env webhook_events_table (has_event_id id)
        (record { id = env.fresh_id w.tick; event_id = id }) w

  unfoldable pub apply_event : StripeEvent → Action WebhookResponse
  apply_event event =
      transaction
        (record_event event.id >>= (λ recorded. apply_kind event.kind >> pure (received false)))

  unfoldable pub handle_event : StripeEvent → Action WebhookResponse
  handle_event event = catch (apply_event event) deduped

  unfoldable pub handle_constructed : Option StripeEvent → Action WebhookResponse
  handle_constructed none = pure invalid_signature
  handle_constructed (some event) = handle_event event

module _ (env : Env) (stripe : Stripe) where
  -- `getStripe()`, which refuses a live key.
  unfoldable pub get_stripe : Action (Unit {0})
  unfolding starts_with
  get_stripe =
      let key = text_or_empty stripe.secret_key in
      if is_empty key
      then throw (not_set (codes "STRIPE_SECRET_KEY"))
      else if starts_with (codes "sk_live_") key || starts_with (codes "rk_live_") key
      then throw live_key_refused
      else pure tt

  -- `POST(req)`: the header `stripe-signature` and the raw body.
  unfoldable pub post : Option Text → Text → Action WebhookResponse
  post signature payload =
      let secret = text_or_empty stripe.webhook_secret in
      let sig = text_or_empty signature in
      if is_empty secret
      then pure secret_not_set
      else if is_empty sig
      then pure missing_signature
      else (get_stripe >> handle_constructed env (stripe.construct_event payload sig secret))
