-- ===== src/Quota/Restore.antt =====
-- lib/quota.ts: what `restoreQuota` changes.
use eps_dapp.Base.{
  ◌-◌, ◌<◌, ◌≡◌, ap, ◌∙◌, ◌⊎◌, inl, inr, Bool, true, false, ◌&&◌, Option, none, some, List, arith,
  count, ltb, update_where, update_where_none, Text,
}
use eps_dapp.Db.{Subscription, Db, is_active}
use eps_dapp.Effects.{Env, World, ok, find_first_subscription, >>=-inv}
use eps_dapp.Quota.Meter.{has_id, owned_by_org, restore_quota, restore_found}

abbrev pub has_usage : Subscription → Subscription → Bool
has_usage s r = has_id s.id r && ltb 0 r.usage_count

-- The rows after one unit of the row was given back.
abbrev pub one_less : Subscription → List Subscription → List Subscription
one_less s = update_where (has_usage s) (λ r. record r { usage_count = r.usage_count - 1 })

abbrev pub restorable : Option Text → Subscription → Bool
restorable none s = false
restorable (some org) s = is_active s.status && owned_by_org org s

-- What the call does to the tables: it gives one unit of an active subscription back, and answers
-- true; or nothing, and answers false.
abbrev pub Restored : Env → Option Text → Db → Db → Bool → Type 0
Restored env org before after answer =
    ((answer ≡ false) × (after ≡ before))
    ⊎ ((s : Subscription) × (answer ≡ true)
        × (env.first_subscription (restorable org) before.subscriptions ≡ some s)
        × (0 < count (has_usage s) before.subscriptions)
        × (after ≡ record before { subscriptions = one_less s before.subscriptions }))

module _ (env : Env) where
  restore_found_lem :
      (s : Subscription) (w : World) (answer : Bool)
      → (restore_found env (some s) w).0 ≡ ok answer
      → ((answer ≡ false) × ((restore_found env (some s) w).1.db ≡ w.db))
        ⊎ ((answer ≡ true)
            × (0 < count (has_usage s) w.db.subscriptions)
            × ((restore_found env (some s) w).1.db
                ≡ record w.db { subscriptions = one_less s w.db.subscriptions }))
  unfolding restore_found
  restore_found_lem s w answer h = ground (
    arith,
    update_where_none (has_usage s)
        (λ (r : Subscription). record r { usage_count = r.usage_count - 1 }) w.db.subscriptions,
  )

  found_lem :
      (org : Option Text) (w : World) (found : Option Subscription)
      → (find_first_subscription env (λ db s. restorable org s) w).0 ≡ ok found
      → (env.first_subscription (restorable org) w.db.subscriptions ≡ found)
        × ((find_first_subscription env (λ db s. restorable org s) w).1.db ≡ w.db)
  found_lem org w found h = ground arith

  restore_found-Restored :
      (org : Option Text) (found : Option Subscription) (before : Db) (w : World) (answer : Bool)
      → w.db ≡ before
      → env.first_subscription (restorable org) before.subscriptions ≡ found
      → (restore_found env found w).0 ≡ ok answer
      → Restored env org before (restore_found env found w).1.db answer
  restore_found-Restored org none before w answer e f h =
      inl (none_found w h, unfold restore_found in e)
    where
      none_found : (w : World) → (restore_found env none w).0 ≡ ok answer → answer ≡ false
      none_found w h = unfold restore_found in cc
  restore_found-Restored org (some s) before w answer e f h =
      elim (restore_found_lem s w answer h) [
        | inl (no_unit, same) ↦ inl (no_unit, same ∙ e)
        | inr (unit, room, given) ↦ inr (
          s,
          unit,
          f,
          ground (arith, ap (λ (db : Db). count (has_usage s) db.subscriptions) e),
          given ∙ ap (λ (db : Db). record db { subscriptions = one_less s db.subscriptions }) e,
        )
      ]

  -- A call that returns gave one unit back, or changed nothing.
  pub restore-Restored :
      (org : Option Text) (w : World) (answer : Bool)
      → (restore_quota env org w).0 ≡ ok answer
      → Restored env org w.db (restore_quota env org w).1.db answer
  unfolding restore_quota
  restore-Restored none w answer = λ h. absurd (ground arith)
  restore-Restored (some org) w answer =
      >>=-inv (λ r. r.0 ≡ ok answer → Restored env (some org) w.db r.1.db answer)
        (find_first_subscription env (λ db s. restorable (some org) s)) w (restore_found env)
        (λ found h.
          let (f, same) = found_lem (some org) w found h in
          restore_found-Restored (some org) found w.db
            (find_first_subscription env (λ db s. restorable (some org) s) w).1 answer same f)
        (λ r h k e. absurd (ground arith))
