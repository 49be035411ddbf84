-- ===== src/Webhook/Once.antt =====
-- app/api/webhooks/stripe/route.ts: an event and its replay.
use eps_dapp.Base.{
  ◌≡◌, refl, ap, ◌∙◌, ◌⊎◌, inl, inr, Bool, true, false, Option, none, some, arith, any, Text,
  text_eq_refl, any-append_last, Option-cases,
}
use eps_dapp.Db.{Organization, WebhookEvent, Db}
use eps_dapp.Effects.{
  Env, World, Result, ok, >>=-inv, >>=-keeps, transaction-inv, catch-inv, ◌>>=◌, ◌>>◌, pure,
}
use eps_dapp.Webhook.Route.{
  CheckoutSession, StripeEvent, StripeEventKind, checkout_completed, other_kind, Stripe,
  WebhookResponse, received, attributed_org, text_or_empty, has_event_id, upsert_organization,
  upsert_subscription, apply_checkout_completed, apply_kind, record_event, apply_event, deduped,
  handle_event, handle_constructed, get_stripe, post,
}

-- The event is in the ledger.
abbrev pub is_recorded : Text → Db → Bool
is_recorded id db = any (has_event_id id) db.webhook_events

abbrev pub is_applied : Result WebhookResponse → Bool
is_applied (ok (received false)) = true
is_applied _ = false

-- A new event was applied and recorded; or no table changed.
abbrev pub Handled : Text → Db → Result WebhookResponse → Db → Type 0
Handled id before r after =
    ((is_applied r ≡ true) × (is_recorded id before ≡ false) × (is_recorded id after ≡ true))
    ⊎ ((is_applied r ≡ false) × (after ≡ before))

module _ (env : Env) where
  upsert_organization-events :
      (clerk : Text) (w : World)
      → (upsert_organization env clerk w).1.db.webhook_events ≡ w.db.webhook_events
  unfolding upsert_organization
  upsert_organization-events clerk w = ground arith

  upsert_subscription-events :
      (id tier : Text) (org : Organization) (w : World)
      → (upsert_subscription env id tier org w).1.db.webhook_events ≡ w.db.webhook_events
  unfolding upsert_subscription
  upsert_subscription-events id tier org w = ground arith

  apply_checkout-events :
      (s : CheckoutSession) (w : World)
      → (apply_checkout_completed env s w).1.db.webhook_events ≡ w.db.webhook_events
  unfolding apply_checkout_completed
  apply_checkout-events s w =
      let tier = text_or_empty s.metadata_tier in
      let id = text_or_empty s.subscription in
      ground (
        arith,
        >>=-keeps (λ w. w.db.webhook_events) (upsert_organization env (attributed_org s))
            (upsert_subscription env id tier) w (upsert_organization-events (attributed_org s) w)
            (upsert_subscription-events id tier),
      )

  apply_kind-events :
      (kind : StripeEventKind) (w : World)
      → (apply_kind env kind w).1.db.webhook_events ≡ w.db.webhook_events
  unfolding apply_kind
  apply_kind-events (checkout_completed s) w = apply_checkout-events s w
  apply_kind-events other_kind w = refl

  record_event_lem :
      (id : Text) (row : WebhookEvent) (w : World)
      → (record_event env id w).0 ≡ ok row
      → (is_recorded id w.db ≡ false) × (is_recorded id (record_event env id w).1.db ≡ true)
  unfolding record_event
  record_event_lem id row w h = ground (
    arith,
    any-append_last (has_event_id id) w.db.webhook_events
        (record { id = env.fresh_id w.tick; event_id = id }) (text_eq_refl id),
  )

  applied_lem :
      (id : Text) (kind : StripeEventKind) (before : Db) (w : World)
      → is_recorded id before ≡ false
      → is_recorded id w.db ≡ true
      → (r : WebhookResponse) → ((apply_kind env kind >> pure (received false)) w).0 ≡ ok r
      → Handled id before (ok r) ((apply_kind env kind >> pure (received false)) w).1.db
  applied_lem id kind before w new old r =
      >>=-inv (λ x. x.0 ≡ ok r → Handled id before (ok r) x.1.db) (apply_kind env kind) w
        (λ _. pure (received false))
        (λ a h k.
          inl (ground arith, new, ap (any (has_event_id id)) (apply_kind-events kind w) ∙ old))
        (λ x h k e. absurd (ground arith))

  apply_event-Handled :
      (event : StripeEvent) (w : World)
      → Handled event.id w.db (apply_event env event w).0 (apply_event env event w).1.db
  unfolding apply_event
  apply_event-Handled event w =
      transaction-inv (λ x. Handled event.id w.db x.0 x.1.db)
        (record_event env event.id
          >>= (λ recorded. apply_kind env event.kind >> pure (received false)))
        w
        (λ r.
          >>=-inv (λ x. x.0 ≡ ok r → Handled event.id w.db (ok r) x.1.db)
            (record_event env event.id) w
            (λ recorded. apply_kind env event.kind >> pure (received false))
            (λ row h e.
              let (new, old) = record_event_lem event.id row w h in
              applied_lem event.id event.kind w.db (record_event env event.id w).1 new old r e)
            (λ x h k e. absurd (ground arith)))
        (λ r h k. inr (ground arith, refl))

  handle_event-Handled :
      (event : StripeEvent) (w : World)
      → Handled event.id w.db (handle_event env event w).0 (handle_event env event w).1.db
  unfolding handle_event deduped
  handle_event-Handled event w =
      let handled = apply_event-Handled event w in
      catch-inv (λ x. Handled event.id w.db x.0 x.1.db) (apply_event env event) deduped w
        (λ r e. ground (arith, handled)) (λ e h. ground (arith, handled))
        (λ h. ground (arith, handled))

module _ (env : Env) (stripe : Stripe) where
  handle_constructed-Handled :
      (event : StripeEvent) (w : World)
      → Handled event.id w.db
          (handle_constructed env (some event) w).0
          (handle_constructed env (some event) w).1.db
  unfolding handle_constructed
  handle_constructed-Handled event w = handle_event-Handled env event w

  post-Handled :
      (signature : Option Text) (payload : Text) (event : StripeEvent) (w : World)
      → stripe.construct_event payload
          (text_or_empty signature)
          (text_or_empty stripe.webhook_secret)
        ≡ some event
      → Handled event.id w.db
          (post env stripe signature payload w).0
          (post env stripe signature payload w).1.db
  unfolding post get_stripe
  post-Handled signature payload event w e =
      let handled = handle_constructed-Handled event w in ground (arith, handled)

  post_unsigned :
      (signature : Option Text) (payload : Text) (w : World)
      → stripe.construct_event payload
          (text_or_empty signature)
          (text_or_empty stripe.webhook_secret)
        ≡ none
      → (is_applied (post env stripe signature payload w).0 ≡ false)
        × ((post env stripe signature payload w).1.db ≡ w.db)
  unfolding post get_stripe handle_constructed
  post_unsigned signature payload w e = ground arith

  -- A call that does not say that it applied its event leaves every table as it was: a bad
  -- signature, a replay, an error and a crash alike.
  pub post-keeps :
      (signature : Option Text) (payload : Text) (w : World)
      → is_applied (post env stripe signature payload w).0 ≡ false
      → (post env stripe signature payload w).1.db ≡ w.db
  post-keeps signature payload w h =
      elim (Option-cases (
        stripe.construct_event payload (text_or_empty signature)
          (text_or_empty stripe.webhook_secret))) [
            | inl e ↦ (post_unsigned signature payload w e).1
            | inr (event, e) ↦ elim (post-Handled signature payload event w e) [
              | inl (applied, _, _) ↦ absurd (ground arith)
              | inr (_, same) ↦ same
            ]
          ]

  -- A delivery of an event that was applied is applied once: sent again, to tables that are as the
  -- first delivery left them, it changes none.
  pub post_once :
      (signature : Option Text) (payload : Text) (w later : World)
      → is_applied (post env stripe signature payload w).0 ≡ true
      → later.db ≡ (post env stripe signature payload w).1.db
      → (is_applied (post env stripe signature payload later).0 ≡ false)
        × ((post env stripe signature payload later).1.db ≡ later.db)
  post_once signature payload w later h same =
      elim (Option-cases (
        stripe.construct_event payload (text_or_empty signature)
          (text_or_empty stripe.webhook_secret))) [
            | inl e ↦ absurd (ground (arith, post_unsigned signature payload w e))
            | inr (event, e) ↦ ground (
              arith,
              post-Handled signature payload event w e,
              post-Handled signature payload event later e,
              ap (is_recorded event.id) same,
            )
          ]
