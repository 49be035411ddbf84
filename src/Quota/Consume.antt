-- ===== src/Quota/Consume.antt =====
-- lib/quota.ts: what `checkAndDecrementQuota` changes.
use mathlib.Core.List.{Memᴰ}
use eps_dapp.Base.{
  ℕ, ◌+◌, ◌≤◌, ◌<◌, ◌≡◌, refl, ap, sym, ◌∙◌, ◌⊎◌, inl, inr, Bool, true, false, Option, none, some,
  List, All, count, ltb, ◌&&◌, arith, update_where, update_where_none, Text, Option-cases,
}
use eps_dapp.Calendar.{next_period_end}
use eps_dapp.Db.{Subscription, Db}
use eps_dapp.Effects.{Env, World, ok, is_ok, Result-cases}
use eps_dapp.Quota.Meter.{
  tier_quota, has_id, metered, QuotaResult, check_and_decrement_quota, consume_found, consume_from,
  roll_over, increment,
}
use eps_dapp.Quota.Spec.{FindsLatest}

module _ (env : Env) where
  roll_over-keeps :
      (now : ℕ) (s : Subscription) (limit : ℕ) (w : World)
      → is_ok (roll_over env now s limit w).0 ≡ false
      → (roll_over env now s limit w).1.db ≡ w.db
  unfolding roll_over
  roll_over-keeps now s limit w = ground arith

  increment-keeps :
      (org : Text) (s : Subscription) (limit : ℕ) (w : World)
      → is_ok (increment env org s limit w).0 ≡ false
      → (increment env org s limit w).1.db ≡ w.db
  unfolding increment
  increment-keeps org s limit w = ground (
    arith,
    update_where_none (λ (r : Subscription). has_id s.id r && ltb r.usage_count limit)
        (λ (r : Subscription). record r { usage_count = r.usage_count + 1 }) w.db.subscriptions,
  )

  consume_from-keeps :
      (org : Text) (now : ℕ) (s : Subscription) (tier : Option ℕ) (w : World)
      → is_ok (consume_from env org now s tier w).0 ≡ false
      → (consume_from env org now s tier w).1.db ≡ w.db
  unfolding consume_from
  consume_from-keeps org now s none w h = refl
  consume_from-keeps org now s (some limit) w h =
      ground (arith, roll_over-keeps now s limit w, increment-keeps org s limit w)

  consume_found-keeps :
      (org : Text) (found : Option Subscription) (w : World)
      → is_ok (consume_found env org found w).0 ≡ false
      → (consume_found env org found w).1.db ≡ w.db
  unfolding consume_found
  consume_found-keeps org none w h = refl
  consume_found-keeps org (some s) w h =
      consume_from-keeps org (env.now w.tick) s (tier_quota s.tier_id) w h

  -- A call that does not return has changed no table.
  pub consume-keeps :
      (org : Text) (w : World)
      → is_ok (check_and_decrement_quota env org w).0 ≡ false
      → (check_and_decrement_quota env org w).1.db ≡ w.db
  unfolding check_and_decrement_quota
  consume-keeps org w h = ground (
    arith,
    consume_found-keeps org (env.first_subscription (metered org w.db) w.db.subscriptions)
        (record w { tick = w.tick + 1 }),
  )

-- The rows after a new period began with this call.
abbrev pub rolled_over : Subscription → ℕ → List Subscription → List Subscription
rolled_over s now =
    update_where (has_id s.id)
      (λ r. record r { usage_count = 1; period_start = now; period_end = next_period_end now })

abbrev pub has_room : Subscription → ℕ → Subscription → Bool
has_room s limit r = has_id s.id r && ltb r.usage_count limit

-- The rows after one more unit in the current period.
abbrev pub one_more : Subscription → ℕ → List Subscription → List Subscription
one_more s limit =
    update_where (has_room s limit) (λ r. record r { usage_count = r.usage_count + 1 })

-- The call metered the row from 1 in a new period, or by one more unit, of which there was one.
abbrev pub Change : Subscription → ℕ → Db → Db → QuotaResult → Type 0
Change s now before after q =
    ((s.period_end < now)
      × (q.usage_count ≡ 1)
      × (after.subscriptions ≡ rolled_over s now before.subscriptions))
    ⊎ ((now ≤ s.period_end)
        × (q.usage_count ≡ s.usage_count + 1)
        × (0 < count (has_room s q.limit) before.subscriptions)
        × (after.subscriptions ≡ one_more s q.limit before.subscriptions))

-- What a call that returns has done: it metered an active subscription of the organization, none
-- of which ends later.
pub record Charged (org : Text) (now : ℕ) (before after : Db) (q : QuotaResult) : Type 0 where
  pub row : Subscription
  pub listed : Memᴰ row before.subscriptions
  pub meets : metered org before row ≡ true
  pub latest :
      All (λ r. metered org before r ≡ true → r.period_end ≤ row.period_end) before.subscriptions
  pub tier : tier_quota row.tier_id ≡ some q.limit
  pub change : Change row now before after q

module _ (env : Env) where
  roll_over-change :
      (now : ℕ) (s : Subscription) (limit : ℕ) (w : World) (q : QuotaResult)
      → (roll_over env now s limit w).0 ≡ ok q
      → (limit ≡ q.limit)
        × (q.usage_count ≡ 1)
        × ((roll_over env now s limit w).1.db.subscriptions ≡ rolled_over s now w.db.subscriptions)
  unfolding roll_over
  roll_over-change now s limit w q h = ground arith

  increment-change :
      (org : Text) (s : Subscription) (limit : ℕ) (w : World) (q : QuotaResult)
      → (increment env org s limit w).0 ≡ ok q
      → (limit ≡ q.limit)
        × (q.usage_count ≡ s.usage_count + 1)
        × (0 < count (has_room s limit) w.db.subscriptions)
        × ((increment env org s limit w).1.db.subscriptions ≡ one_more s limit w.db.subscriptions)
  unfolding increment
  increment-change org s limit w q h = ground arith

  consume_from-Change :
      (org : Text) (now : ℕ) (s : Subscription) (tier : Option ℕ) (w : World) (q : QuotaResult)
      → (consume_from env org now s tier w).0 ≡ ok q
      → (tier ≡ some q.limit) × Change s now w.db (consume_from env org now s tier w).1.db q
  unfolding consume_from
  consume_from-Change org now s none w q h = cc
  consume_from-Change org now s (some limit) w q h =
      ground (arith, roll_over-change now s limit w q, increment-change org s limit w q)

  consume_found-Change :
      (org : Text) (s : Subscription) (w : World) (q : QuotaResult)
      → (consume_found env org (some s) w).0 ≡ ok q
      → (tier_quota s.tier_id ≡ some q.limit)
        × Change s (env.now w.tick) w.db (consume_found env org (some s) w).1.db q
  unfolding consume_found
  consume_found-Change org s w q h =
      consume_from-Change org (env.now w.tick) s (tier_quota s.tier_id) w q h

  no_plan : (org : Text) (w : World) {q : QuotaResult} → (consume_found env org none w).0 ≡ ok q → ⊥
  unfolding consume_found
  no_plan org w h = cc

  -- The two statements of a call that returns.
  consume-found :
      (org : Text) (w : World) (q : QuotaResult)
      → (check_and_decrement_quota env org w).0 ≡ ok q
      → (s : Subscription) × (env.first_subscription (metered org w.db) w.db.subscriptions ≡ some s)
        × (check_and_decrement_quota env org w
            ≡ consume_found env org (some s) (record w { tick = w.tick + 1 }))
  unfolding check_and_decrement_quota
  consume-found org w q h = elim (Result-cases (env.answers w.tick)) [
    | inl (a, e) ↦
        elim (Option-cases (env.first_subscription (metered org w.db) w.db.subscriptions)) [
          | inl missing ↦
              absurd (no_plan org (record w { tick = w.tick + 1 }) {q = q} (ground arith))
          | inr (s, found) ↦ (s, found, ground arith)
        ]
    | inr other ↦ absurd (ground arith)
  ]

-- A call that returns has charged the organization's latest active subscription, at the time of
-- the second statement.
pub consume-Charged :
    (env : Env) (org : Text) (w : World) (q : QuotaResult)
    → FindsLatest env
    → (check_and_decrement_quota env org w).0 ≡ ok q
    → Charged org (env.now (w.tick + 1)) w.db (check_and_decrement_quota env org w).1.db q
consume-Charged env org w q law h =
    let (s, found, e) = consume-found env org w q h in
    let (tier, change) =
      consume_found-Change env org s (record w { tick = w.tick + 1 }) q
        (ap (λ r. r.0) (sym e) ∙ h) in
    record {
      row = s;
      listed = law.found_mem _ _ s found;
      meets = law.found_meets _ _ s found;
      latest = law.found_latest _ _ s found;
      tier = tier;
      change = rw e change;
    }
