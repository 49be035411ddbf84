-- ===== src/Checkout.antt =====
-- app/api/checkout/route.ts: `POST`, with `isTier` and `priceIdForTier` of lib/stripe.ts. The
-- session that Stripe makes is a parameter.
use eps_dapp.Base.{
  ℕ, ◌||◌, Option, none, some, or_else, is_empty, ◌++◌, if◌then◌else◌, Text, codes, text_eq,
}
use eps_dapp.Auth.{Session, AuthContext, require_auth}
use eps_dapp.Variables.{Variables}
use eps_dapp.Effects.{
  Action, Env, Result, ok, err, crashed, ◌>>=◌, ◌>>◌, pure, throw, call, not_set, unauthorized,
  no_organization,
}
use eps_dapp.Http.{Field, text, Body, malformed_json, not_an_object, fields}
use eps_dapp.Webhook.{Stripe, get_stripe}

unfoldable pub is_tier : Field → Option Text
unfolding text_eq
is_tier (text tier) =
    if text_eq tier (codes "tier1")
      || (text_eq tier (codes "tier2") || text_eq tier (codes "tier3"))
    then some tier
    else none
is_tier field = none

-- `TIER_PRICE_ENV[tier]`.
unfoldable pub tier_price_env : Text → Text
unfolding text_eq
tier_price_env tier =
    if text_eq tier (codes "tier1")
    then codes "STRIPE_TIER1_PRICE_ID"
    else if text_eq tier (codes "tier2")
    then codes "STRIPE_TIER2_PRICE_ID"
    else codes "STRIPE_TIER3_PRICE_ID"

-- What the session is made with; the constant fields are left out.
pub record CheckoutParams : Type 0 where
  pub price : Text
  pub org_id : Text
  pub user_id : Text
  pub tier : Text
  pub success_url : Text
  pub cancel_url : Text

pub data CheckoutResponse : Type 0 where
  refused_401 invalid_json invalid_tier : CheckoutResponse
  session_url : Option Text → CheckoutResponse

module _ (vars : Variables) where
  unfoldable pub price_id_for_tier : Text → Action Text
  price_id_for_tier tier =
      let name = tier_price_env tier in
      let price = or_else (vars name) (codes "") in
      if is_empty price then throw (not_set name) else pure price

  module _ (env : Env) (stripe : Stripe)
      (create_session : ℕ → CheckoutParams → Result (Option Text)) (origin : Text) where
    abbrev pub checkout_params : AuthContext → Text → Text → CheckoutParams
    checkout_params ctx tier price = record {
      price = price;
      org_id = ctx.org_id;
      user_id = ctx.user_id;
      tier = tier;
      success_url = origin ++ codes "/dashboard?checkout=success&session_id={CHECKOUT_SESSION_ID}";
      cancel_url = origin ++ codes "/pricing?checkout=cancelled";
    }

    unfoldable pub checkout_tier : AuthContext → Option Text → Action CheckoutResponse
    checkout_tier ctx none = pure invalid_tier
    checkout_tier ctx (some tier) =
        get_stripe env stripe
        >> (price_id_for_tier tier >>= λ price.
            call (λ t. create_session t (checkout_params ctx tier price)) >>= λ url.
            pure (session_url url))

    unfoldable pub checkout_body : AuthContext → Body Field → Action CheckoutResponse
    checkout_body ctx malformed_json = pure invalid_json
    checkout_body ctx not_an_object = pure invalid_tier
    checkout_body ctx (fields tier) = checkout_tier ctx (is_tier tier)

    unfoldable pub checkout_as : Result AuthContext → Body Field → Action CheckoutResponse
    checkout_as (ok ctx) body = checkout_body ctx body
    checkout_as (err unauthorized) body = pure refused_401
    checkout_as (err no_organization) body = pure refused_401
    checkout_as (err e) body = throw e
    checkout_as crashed body = λ w. (crashed, w)

    unfoldable pub post_checkout : Session → Body Field → Action CheckoutResponse
    post_checkout session body = checkout_as (require_auth session) body
