-- ===== src/Tests/Webhook.antt =====
-- The webhook on a paid checkout.
use eps_dapp.Base.{◌≡◌, refl, true, false, some, none, [], codes, text_eq}
use eps_dapp.Effects.{World}
use eps_dapp.Webhook.{
  CheckoutSession, StripeEvent, checkout_completed, Stripe, upsert_organization,
  upsert_subscription, apply_checkout_completed, apply_kind, record_event, apply_event,
  handle_event, handle_constructed, get_stripe, post, is_applied, has_live, post-keeps, post_once,
  post-active,
}
use eps_dapp.Samples.{sample_env, sample_world, sample_db}

abbrev sample_session : CheckoutSession
sample_session = record {
  client_reference_id = some (codes "org_1");
  metadata_org_id = none;
  metadata_tier = some (codes "tier1");
  subscription = some (codes "sub_1");
}

abbrev paid : StripeEvent
paid = record { id = codes "evt_1"; kind = checkout_completed sample_session }

abbrev sample_stripe : Stripe
sample_stripe = record {
  webhook_secret = some (codes "whsec");
  secret_key = some (codes "sk_test_1");
  construct_event = λ payload signature secret. some paid;
}

abbrev after_first : World
after_first = (post sample_env sample_stripe (some (codes "sig")) [] sample_world).1

first_applied :
    is_applied (post sample_env sample_stripe (some (codes "sig")) [] sample_world).0 ≡ true
unfolding post get_stripe handle_constructed handle_event apply_event record_event apply_kind
    apply_checkout_completed upsert_organization text_eq upsert_subscription
first_applied = refl

unsigned_refused : is_applied (post sample_env sample_stripe none [] sample_world).0 ≡ false
unfolding post
unsigned_refused = refl

post-keeps_example : (post sample_env sample_stripe none [] sample_world).1.db ≡ sample_db
post-keeps_example = post-keeps sample_env sample_stripe none [] sample_world unsigned_refused

post_once_example :
    (is_applied (post sample_env sample_stripe (some (codes "sig")) [] after_first).0 ≡ false)
    × ((post sample_env sample_stripe (some (codes "sig")) [] after_first).1.db ≡ after_first.db)
post_once_example =
    post_once sample_env sample_stripe (some (codes "sig")) [] sample_world after_first
      first_applied refl

post-active_example :
    has_live
      (codes "sub_1")
      (post sample_env sample_stripe (some (codes "sig")) [] sample_world).1.db
    ≡ true
post-active_example =
    post-active sample_env sample_stripe (some (codes "sig")) [] paid sample_session sample_world
      refl refl refl first_applied
