-- ===== src/Quota/Bounds.antt =====
-- lib/quota.ts: the meter and the limit of the tier.
use mathlib.Core.List.{Memᴰ}
use eps_dapp.Base.{
  ℕ, ◌≤◌, ◌≡◌, ap, inl, inr, some, List, arith, All, All-update_where, eq-of_count_one,
  mem-of_count_pos, count, ◌<◌, Text, text_eq_refl,
}
use eps_dapp.Db.{Subscription, Db}
use eps_dapp.Effects.{Env, World, ok, Result-cases}
use eps_dapp.Quota.Meter.{tier_quota, has_id, QuotaResult, check_and_decrement_quota}
use eps_dapp.Quota.Spec.{FindsLatest, IsWithin, AllWithin, HasUniqueId, tier_quota_pos}
use eps_dapp.Quota.Consume.{
  Charged, rolled_over, one_more, has_room, consume-Charged, consume-keeps,
}

rolled_over-IsWithin :
    (s : Subscription) (now : ℕ) (rows : List Subscription)
    → All IsWithin rows
    → All IsWithin (rolled_over s now rows)
rolled_over-IsWithin s now rows h =
    All-update_where IsWithin (has_id s.id) _ rows h (λ r m e limit t. tier_quota_pos r limit t)

-- The row that is counted up is the one that was found.
one_more-IsWithin :
    (s : Subscription) (limit : ℕ) (rows : List Subscription)
    → HasUniqueId s rows
    → Memᴰ s rows
    → tier_quota s.tier_id ≡ some limit
    → All IsWithin rows
    → All IsWithin (one_more s limit rows)
one_more-IsWithin s limit rows unique m t h =
    All-update_where IsWithin (has_room s limit) _ rows h (λ r mr e bound tr.
      let same =
        eq-of_count_one (has_id s.id) rows r s unique mr m (ground arith) (text_eq_refl s.id) in
      ground (arith, ap (λ (x : Subscription). tier_quota x.tier_id) same))

Charged-AllWithin :
    (org : Text) (now : ℕ) (before after : Db) (q : QuotaResult)
    (c : Charged org now before after q)
    → HasUniqueId c.row before.subscriptions
    → AllWithin before
    → AllWithin after
Charged-AllWithin org now before after q c unique h = elim c.change [
  | inl (_, _, e) ↦ rw e (rolled_over-IsWithin c.row now before.subscriptions h)
  | inr (_, _, _, e) ↦
      rw e (one_more-IsWithin c.row q.limit before.subscriptions unique c.listed c.tier h)
]

-- Whatever the outcome, the usage of every subscription stays within the limit of its tier. The
-- calls take effect one after the other, `findFirst` finds the latest row, and ids are unique.
pub consume-AllWithin :
    (env : Env) (org : Text) (w : World)
    → FindsLatest env
    → ((s : Subscription) → Memᴰ s w.db.subscriptions → HasUniqueId s w.db.subscriptions)
    → AllWithin w.db
    → AllWithin (check_and_decrement_quota env org w).1.db
consume-AllWithin env org w law unique h =
    elim (Result-cases (check_and_decrement_quota env org w).0) [
      | inl (q, e) ↦
          let c = consume-Charged env org w q law e in
          Charged-AllWithin org _ w.db _ q c (unique c.row c.listed) h
      | inr failed ↦ rw (consume-keeps env org w (ground arith)) h
    ]

-- The row that has room is the one that was found.
has_room-row :
    (s : Subscription) (limit : ℕ) (rows : List Subscription)
    → HasUniqueId s rows
    → Memᴰ s rows
    → 0 < count (has_room s limit) rows
    → s.usage_count < limit
has_room-row s limit rows unique m h =
    let (r, mr, e) = mem-of_count_pos (has_room s limit) rows h in
    let same =
      eq-of_count_one (has_id s.id) rows r s unique mr m (ground arith) (text_eq_refl s.id) in
    ground (arith, ap (λ (x : Subscription). x.usage_count) same)

-- A call that returns reports a usage between 1 and the limit that it reports.
pub consume-le-limit :
    (env : Env) (org : Text) (w : World) (q : QuotaResult)
    → FindsLatest env
    → ((s : Subscription) → Memᴰ s w.db.subscriptions → HasUniqueId s w.db.subscriptions)
    → (check_and_decrement_quota env org w).0 ≡ ok q
    → (1 ≤ q.usage_count) × (q.usage_count ≤ q.limit)
consume-le-limit env org w q law unique h =
    let c = consume-Charged env org w q law h in
    ground (
      arith,
      c.change,
      tier_quota_pos c.row q.limit c.tier,
      has_room-row c.row q.limit w.db.subscriptions (unique c.row c.listed) c.listed,
    )
