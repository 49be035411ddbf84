-- ===== src/Webhook/Active.antt =====
-- app/api/webhooks/stripe/route.ts: a checkout and its subscription.
use eps_dapp.Base.{
  ◌≡◌, not, Bool, true, false, ◌&&◌, ◌||◌, Option, some, arith, any, find, Text, text_eq_refl,
  is_empty, any-append_last, any-update_where, any-of_find, Option-cases, inl, inr,
}
use eps_dapp.Calendar.{next_period_end}
use eps_dapp.Db.{Organization, Subscription, SubscriptionStatus, Db, is_active}
use eps_dapp.Effects.{
  Env, World, Result, ok, is_ok, >>=-inv, transaction-inv, catch-inv, ◌>>=◌, ◌>>◌, pure,
}
use eps_dapp.Webhook.Route.{
  CheckoutSession, StripeEvent, checkout_completed, Stripe, WebhookResponse, received,
  attributed_org, text_or_empty, has_subscription_id, activated, upsert_organization,
  upsert_subscription, apply_checkout_completed, apply_kind, record_event, apply_event, deduped,
  handle_event, handle_constructed, get_stripe, post,
}
use eps_dapp.Webhook.Once.{is_applied}

abbrev pub is_live : Text → Subscription → Bool
is_live id s = has_subscription_id id s && is_active s.status

abbrev pub has_live : Text → Db → Bool
has_live id db = any (is_live id) db.subscriptions

-- An organization, a tier and a subscription are named in the session.
abbrev pub is_attributed : CheckoutSession → Bool
is_attributed s =
    not (is_empty (attributed_org s))
    && (not (is_empty (text_or_empty s.metadata_tier))
        && not (is_empty (text_or_empty s.subscription)))

abbrev pub Live : Text → Result (Unit {0}) × World → Type 0
Live id (r, w) = is_ok r ≡ true → has_live id w.db ≡ true

module _ (env : Env) where
  upsert_subscription-Live :
      (id tier : Text) (org : Organization) (w : World)
      → Live id (upsert_subscription env id tier org w)
  unfolding upsert_subscription
  upsert_subscription-Live id tier org w h =
      elim (Option-cases (find (has_subscription_id id) w.db.subscriptions)) [
        | inl e ↦ ground (
          arith,
          any-append_last (is_live id) w.db.subscriptions
              (record {
                id = id;
                org_id = org.id;
                tier_id = tier;
                status = SubscriptionStatus.active;
                period_start = env.now w.tick;
                period_end = next_period_end (env.now w.tick);
                usage_count = 0;
              })
              (ground (arith, text_eq_refl id)),
        )
        | inr (s, e) ↦ ground (
          arith,
          any-update_where (has_subscription_id id) (is_live id) activated w.db.subscriptions
              (any-of_find (has_subscription_id id) w.db.subscriptions s e) (λ x k. ground arith),
        )
      ]

  apply_kind-Live :
      (s : CheckoutSession) (w : World)
      → is_attributed s ≡ true
      → Live (text_or_empty s.subscription) (apply_kind env (checkout_completed s) w)
  unfolding apply_kind apply_checkout_completed
  apply_kind-Live s w attributed =
      let id = text_or_empty s.subscription in
      let tier = text_or_empty s.metadata_tier in
      let live =
        >>=-inv (Live id) (upsert_organization env (attributed_org s)) w
          (upsert_subscription env id tier)
          (λ org h.
            upsert_subscription-Live id tier org (upsert_organization env (attributed_org s) w).1)
          (λ r h k e. absurd (ground arith)) in
      let named : (is_empty (attributed_org s) || (is_empty tier || is_empty id)) ≡ false =
        ground arith in
      rw named live

  applied-Live :
      (s : CheckoutSession) (w : World)
      → is_attributed s ≡ true
      → (r : WebhookResponse)
      → ((apply_kind env (checkout_completed s) >> pure (received false)) w).0 ≡ ok r
      → has_live
          (text_or_empty s.subscription)
          ((apply_kind env (checkout_completed s) >> pure (received false)) w).1.db
        ≡ true
  applied-Live s w attributed r =
      let id = text_or_empty s.subscription in
      >>=-inv (λ x. x.0 ≡ ok r → has_live id x.1.db ≡ true) (apply_kind env (checkout_completed s))
        w (λ _. pure (received false)) (λ a h k. apply_kind-Live s w attributed (ground arith))
        (λ x h k e. absurd (ground arith))

  apply_event-Live :
      (event : StripeEvent) (s : CheckoutSession) (w : World)
      → event.kind ≡ checkout_completed s
      → is_attributed s ≡ true
      → is_applied (apply_event env event w).0 ≡ true
      → has_live (text_or_empty s.subscription) (apply_event env event w).1.db ≡ true
  unfolding apply_event
  apply_event-Live event s w kind attributed =
      let id = text_or_empty s.subscription in
      let rest = apply_kind env event.kind >> pure (received false) in
      transaction-inv (λ x. is_applied x.0 ≡ true → has_live id x.1.db ≡ true)
        (record_event env event.id >>= (λ recorded. rest)) w
        (λ r e k.
          >>=-inv (λ x. x.0 ≡ ok r → has_live id x.1.db ≡ true) (record_event env event.id) w
            (λ recorded. rest)
            (λ row h. rw kind (applied-Live s (record_event env event.id w).1 attributed r))
            (λ x h k e. absurd (ground arith)) e)
        (λ r h k e. absurd (ground arith))

  handle_event-Live :
      (event : StripeEvent) (s : CheckoutSession) (w : World)
      → event.kind ≡ checkout_completed s
      → is_attributed s ≡ true
      → is_applied (handle_event env event w).0 ≡ true
      → has_live (text_or_empty s.subscription) (handle_event env event w).1.db ≡ true
  unfolding handle_event deduped
  handle_event-Live event s w kind attributed =
      let live = apply_event-Live event s w kind attributed in
      catch-inv (λ x. is_applied x.0 ≡ true → has_live (text_or_empty s.subscription) x.1.db ≡ true)
        (apply_event env event) deduped w (λ r e k. live (ground arith))
        (λ e h k. absurd (ground arith)) (λ h k. absurd (ground arith))

  -- A checkout whose session names an organization, a tier and a subscription, and that is said to
  -- be applied, leaves the subscription active.
  pub post-active :
      (stripe : Stripe) (signature : Option Text) (payload : Text) (event : StripeEvent)
      (s : CheckoutSession) (w : World)
      → stripe.construct_event payload
          (text_or_empty signature)
          (text_or_empty stripe.webhook_secret)
        ≡ some event
      → event.kind ≡ checkout_completed s
      → is_attributed s ≡ true
      → is_applied (post env stripe signature payload w).0 ≡ true
      → has_live (text_or_empty s.subscription) (post env stripe signature payload w).1.db ≡ true
  unfolding post get_stripe handle_constructed
  post-active stripe signature payload event s w e kind attributed h =
      let live = handle_event-Live event s w kind attributed in ground (arith, live)
