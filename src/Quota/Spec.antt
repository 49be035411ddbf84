-- ===== src/Quota/Spec.antt =====
-- What the quota code relies on of `findFirst`, and the bound that the meter keeps.
use mathlib.Core.List.{Memᴰ}
use eps_dapp.Base.{ℕ, ◌≤◌, ◌≡◌, Bool, true, false, none, some, List, All, count, arith}
use eps_dapp.Db.{Subscription, Db}
use eps_dapp.Effects.{Env}
use eps_dapp.Quota.Meter.{tier_quota, has_id}

-- `findFirst` with `orderBy: { periodEnd: "desc" }`: a row of the table that meets the condition,
-- none of which ends later; and nothing only if no row meets it.
pub record FindsLatest (env : Env) : Type 0 where
  pub found_mem :
      (p : Subscription → Bool) (rows : List Subscription) (s : Subscription)
      → env.first_subscription p rows ≡ some s
      → Memᴰ s rows
  pub found_meets :
      (p : Subscription → Bool) (rows : List Subscription) (s : Subscription)
      → env.first_subscription p rows ≡ some s
      → p s ≡ true
  pub found_latest :
      (p : Subscription → Bool) (rows : List Subscription) (s : Subscription)
      → env.first_subscription p rows ≡ some s
      → All (λ r. p r ≡ true → r.period_end ≤ s.period_end) rows
  pub missing :
      (p : Subscription → Bool) (rows : List Subscription)
      → env.first_subscription p rows ≡ none
      → All (λ r. p r ≡ false) rows

-- The usage of a row is within the limit of its tier.
abbrev pub IsWithin : Subscription → Type 0
IsWithin s = (limit : ℕ) → tier_quota s.tier_id ≡ some limit → s.usage_count ≤ limit

abbrev pub AllWithin : Db → Type 0
AllWithin db = All IsWithin db.subscriptions

-- The column `id` is unique: the rows that share an id are one.
abbrev pub HasUniqueId : Subscription → List Subscription → Type 0
HasUniqueId s rows = count (has_id s.id) rows ≡ 1

pub tier_quota_pos : (s : Subscription) (limit : ℕ) → tier_quota s.tier_id ≡ some limit → 1 ≤ limit
unfolding tier_quota
tier_quota_pos s limit h = ground arith
