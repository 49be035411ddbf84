-- ===== src/Quota/Meter.antt =====
-- lib/quota.ts: `TIER_QUOTA`, `nextPeriodEnd` (in `Calendar`), `checkAndDecrementQuota` and
-- `restoreQuota`.
use eps_dapp.Base.{
  ℕ, ◌+◌, ◌-◌, Bool, false, ◌&&◌, Option, none, some, ltb, if◌then◌else◌, any, Text, codes, text_eq,
}
use eps_dapp.Calendar.{next_period_end}
use eps_dapp.Db.{Db, Organization, Subscription, subscriptions_table, is_active}
use eps_dapp.Effects.{
  Action, Env, external, ◌>>=◌, ◌>>◌, pure, throw, no_active_subscription, unknown_tier,
  quota_exceeded, find_first_subscription, update_many, update,
}

-- `TIER_QUOTA[tier]`, `undefined` for an unknown tier.
unfoldable pub tier_quota : Text → Option ℕ
unfolding text_eq
tier_quota tier =
    if text_eq tier (codes "tier1")
    then some 1
    else if text_eq tier (codes "tier2")
    then some 9
    else if text_eq tier (codes "tier3")
    then some 999
    else none

pub record QuotaResult : Type 0 where
  pub usage_count : ℕ
  pub limit : ℕ

-- The organization that the row belongs to has the Clerk id.
abbrev pub owned_by_clerk_org : Text → Db → Subscription → Bool
owned_by_clerk_org clerk db s =
    any (λ (o : Organization). text_eq o.id s.org_id && text_eq o.clerk_org_id clerk)
      db.organizations

abbrev pub metered : Text → Db → Subscription → Bool
metered clerk db s = is_active s.status && owned_by_clerk_org clerk db s

abbrev pub owned_by_org : Text → Subscription → Bool
owned_by_org org s = text_eq s.org_id org

abbrev pub has_id : Text → Subscription → Bool
has_id id s = text_eq s.id id

module _ (env : Env) where
  -- The branch of an elapsed period: this call is the first unit of a new one.
  unfoldable pub roll_over : ℕ → Subscription → ℕ → Action QuotaResult
  roll_over now s limit = do
    update env subscriptions_table (has_id s.id)
        (λ r. record r { usage_count = 1; period_start = now; period_end = next_period_end now })
    pure (record { usage_count = 1; limit = limit })

  -- The branch of the current period: one more unit, while the row is under the limit.
  unfoldable pub increment : Text → Subscription → ℕ → Action QuotaResult
  increment org s limit = do
    changed ←
        update_many env subscriptions_table (λ r. has_id s.id r && ltb r.usage_count limit)
          (λ r. record r { usage_count = r.usage_count + 1 })
    if ltb 0 changed
        then pure (record { usage_count = s.usage_count + 1; limit = limit })
        else throw (quota_exceeded org limit)

  unfoldable pub consume_from : Text → ℕ → Subscription → Option ℕ → Action QuotaResult
  consume_from org now s none = throw (unknown_tier s.tier_id org)
  consume_from org now s (some limit) =
      if ltb s.period_end now then roll_over now s limit else increment org s limit

  unfoldable pub consume_found : Text → Option Subscription → Action QuotaResult
  consume_found org none = throw (no_active_subscription org)
  consume_found org (some s) = λ w. consume_from org (env.now w.tick) s (tier_quota s.tier_id) w

  -- `checkAndDecrementQuota(orgId, db)`, with the Clerk id of the organization.
  unfoldable pub check_and_decrement_quota : Text → Action QuotaResult
  check_and_decrement_quota org = do
    found ← find_first_subscription env (metered org)
    consume_found org found

  unfoldable pub restore_found : Option Subscription → Action Bool
  restore_found none = pure false
  restore_found (some s) = do
    changed ←
        update_many env subscriptions_table (λ r. has_id s.id r && ltb 0 r.usage_count)
          (λ r. record r { usage_count = r.usage_count - 1 })
    pure (ltb 0 changed)

  -- `restoreQuota(orgId, db)`, with the internal id of the organization. It is null for a request
  -- that was filed without an organization: Prisma refuses a null in a filter on a required column.
  unfoldable pub restore_quota : Option Text → Action Bool
  restore_quota none = throw (external (codes "Argument `orgId` must not be null."))
  restore_quota (some org) = do
    found ← find_first_subscription env (λ db s. is_active s.status && owned_by_org org s)
    restore_found found
