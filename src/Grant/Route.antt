-- ===== src/Grant/Route.antt =====
-- app/api/admin/comp-grant/route.ts: `POST`. The body is what `req.json()` gives: malformed, or a
-- value whose `targetOrgId` is a string or not. The audit row keeps the parts of its metadata that
-- are not constants.
use eps_dapp.Base.{ℕ, Bool, Option, none, some, is_empty, if◌then◌else◌, Text, codes, text_eq}
use eps_dapp.Auth.{Session, AuthContext, require_org_admin}
use eps_dapp.Calendar.{add_months}
use eps_dapp.Db.{
  Organization, Subscription, SubscriptionStatus, AuditLog, comp_grant, subscriptions_table,
  audit_log_table,
}
use eps_dapp.Effects.{
  Action, Env, Result, ok, err, crashed, ◌>>=◌, ◌>>◌, pure, throw, transaction, update, create,
  find_first_subscription, unauthorized, no_organization, forbidden,
}
use eps_dapp.Webhook.{upsert_organization}

pub data GrantBody : Type 0 where
  malformed_json : GrantBody
  parsed : Option Text → GrantBody

pub data GrantResponse : Type 0 where
  refused_401 refused_403 invalid_json invalid_target : GrantResponse
  granted : Subscription → GrantResponse

abbrev pub comp_grant_tier : Text
comp_grant_tier = codes "tier3"

abbrev pub comp_grant_months : ℕ
comp_grant_months = 24

abbrev pub has_row_id : Text → Subscription → Bool
has_row_id id s = text_eq s.id id

abbrev pub renewed : ℕ → Subscription → Subscription
renewed now s = record s {
  tier_id = comp_grant_tier;
  status = SubscriptionStatus.active;
  period_start = now;
  period_end = add_months now comp_grant_months;
  usage_count = 0;
}

abbrev pub new_grant : Text → Text → ℕ → Subscription
new_grant id org now = record {
  id = id;
  org_id = org;
  tier_id = comp_grant_tier;
  status = SubscriptionStatus.active;
  period_start = now;
  period_end = add_months now comp_grant_months;
  usage_count = 0;
}

abbrev pub grant_audit : Text → AuthContext → Text → Subscription → AuditLog
grant_audit fresh actor target s = record {
  id = fresh;
  detail = comp_grant s.id actor.org_id;
  actor_id = actor.user_id;
  target_id = target;
}

module _ (env : Env) (actor : AuthContext) (target : Text) (now : ℕ) where
  -- The organization's latest subscription is renewed, or a new one made.
  unfoldable pub put_grant : Organization → Option Subscription → Action Subscription
  put_grant org (some s) w = update env subscriptions_table (has_row_id s.id) (renewed now) w
  put_grant org none w =
      create env subscriptions_table (has_row_id (env.fresh_id w.tick))
        (new_grant (env.fresh_id w.tick) org.id now) w

  unfoldable pub audit_grant : Subscription → Action GrantResponse
  audit_grant s w =
      (create env audit_log_table (λ (a : AuditLog). text_eq a.id (env.fresh_id w.tick))
            (grant_audit (env.fresh_id w.tick) actor target s)
          >> pure (granted s))
        w

  unfoldable pub grant_found : Organization → Option Subscription → Action GrantResponse
  grant_found org found = put_grant org found >>= audit_grant

  unfoldable pub grant_to : Organization → Action GrantResponse
  grant_to org = find_first_subscription env (λ db s. text_eq s.org_id org.id) >>= grant_found org

  unfoldable pub grant : Action GrantResponse
  grant = transaction (upsert_organization env target >>= grant_to)

module _ (env : Env) where
  unfoldable pub grant_target : AuthContext → GrantBody → Action GrantResponse
  grant_target actor malformed_json w = pure invalid_json w
  grant_target actor (parsed none) w = pure invalid_target w
  grant_target actor (parsed (some target)) w =
      if is_empty target then pure invalid_target w else grant env actor target (env.now w.tick) w

  -- The handler of the errors of `requireOrgAdmin`.
  unfoldable pub grant_as : Result AuthContext → GrantBody → Action GrantResponse
  grant_as (ok actor) body w = grant_target actor body w
  grant_as (err forbidden) body w = pure refused_403 w
  grant_as (err unauthorized) body w = pure refused_401 w
  grant_as (err no_organization) body w = pure refused_401 w
  grant_as (err e) body w = throw e w
  grant_as crashed body w = (crashed, w)

  unfoldable pub post_grant : Session → GrantBody → Action GrantResponse
  post_grant session body = grant_as (require_org_admin session) body
