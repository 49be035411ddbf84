-- ===== src/Grant/Put.antt =====
-- app/api/admin/comp-grant/route.ts: the row that a grant puts into the table of subscriptions.
use mathlib.Core.List.{Memᴰ}
use eps_dapp.Base.{
  ℕ, ◌+◌, ◌*◌, ◌≤◌, ◌≡◌, ap, sym, subst, ◌∙◌, Bool, none, some, [], ◌∷◌, ◌++◌, arith, Text, codes,
  count, find, find-mem, find_meets, find-append_last, mem-append_last, mem-update_where,
  update_where, eq-of_count_one, count-pos-of_mem, text_eq, text_eq_refl, Option-cases, inl, inr,
}
use eps_dapp.Auth.{AuthContext}
use eps_dapp.Calendar.{
  add_months-index, month_start, month_index, day_in_month, time_in_day, ms_per_day,
}
use eps_dapp.Db.{Db, Organization, Subscription, SubscriptionStatus, comp_grant}
use eps_dapp.Effects.{Env, World, ok}
use eps_dapp.Webhook.{upsert_organization}
use eps_dapp.Grant.Route.{has_row_id, renewed, put_grant}

-- An id is the id of at most one subscription.
pub record UniqueSubscriptions (db : Db) : Type 0 where
  pub one_at_most : (id : Text) → count (has_row_id id) db.subscriptions ≤ 1

abbrev pub is_target : Text → Organization → Bool
is_target target o = text_eq o.clerk_org_id target

-- The subscription of a grant from a time on: of tier 3, active and unused, up to the same day of
-- the month and the same time of the day, 24 months later.
pub record IsGrant (now : ℕ) (s : Subscription) : Type 0 where
  pub tier : s.tier_id ≡ codes "tier3"
  pub is_on : s.status ≡ SubscriptionStatus.active
  pub begins : s.period_start ≡ now
  pub ends :
      s.period_end
      ≡ (month_start (month_index now + 24) + day_in_month now) * ms_per_day + time_in_day now
  pub unused : s.usage_count ≡ 0

-- The subscription is in the table, of the organization with the Clerk id; and one audit row says
-- who granted it.
pub record Given (user org_id target : Text) (now : ℕ) (before after : Db) (s : Subscription)
    : Type 0 where
  pub is_grant : IsGrant now s
  pub present : Memᴰ s after.subscriptions
  pub org : Organization
  pub known : find (is_target target) after.organizations ≡ some org
  pub owned : s.org_id ≡ org.id
  pub audit_id : Text
  pub audited :
      after.audit_log
      ≡ before.audit_log
        ++ record {
          id = audit_id;
          detail = comp_grant s.id org_id;
          actor_id = user;
          target_id = target;
        }
          ∷ []

module _ (env : Env) (actor : AuthContext) (target : Text) (now : ℕ) where
  pub upsert_lem :
      (w : World) (o : Organization)
      → (upsert_organization env target w).0 ≡ ok o
      → (find (is_target target) (upsert_organization env target w).1.db.organizations ≡ some o)
        × ((upsert_organization env target w).1.db.subscriptions ≡ w.db.subscriptions)
        × ((upsert_organization env target w).1.db.audit_log ≡ w.db.audit_log)
  unfolding upsert_organization
  upsert_lem w o h = elim (Option-cases (find (is_target target) w.db.organizations)) [
    | inl e ↦ ground (
      arith,
      e,
      h,
      find-append_last (is_target target) w.db.organizations o e,
      text_eq_refl target,
    )
    | inr (p, e) ↦ ground (arith, e, h)
  ]

  -- What `put_grant` leaves: the row, and the other tables as they were.
  pub record Put (org : Organization) (before after : Db) (s : Subscription) : Type 0 where
    pub is_grant : IsGrant now s
    pub present : Memᴰ s after.subscriptions
    pub owned : s.org_id ≡ org.id
    pub same_orgs : after.organizations ≡ before.organizations
    pub same_audit : after.audit_log ≡ before.audit_log

  pub made-Put :
      (org : Organization) (w : World) (s : Subscription)
      → (put_grant env actor target now org none w).0 ≡ ok s
      → Put org w.db (put_grant env actor target now org none w).1.db s
  unfolding put_grant
  made-Put org w s h = record {
    is_grant = record {
      tier = ground (arith, h);
      is_on = ground (arith, h);
      begins = ground (arith, h);
      ends = ground (arith, h, add_months-index now 24);
      unused = ground (arith, h);
    };
    present = subst (Memᴰ s) (sym (rows s h)) (mem-append_last w.db.subscriptions s);
    owned = ground (arith, h);
    same_orgs = ground (arith, h);
    same_audit = ground (arith, h);
  }
    where
      rows :
          (s : Subscription)
          → (put_grant env actor target now org none w).0 ≡ ok s
          → (put_grant env actor target now org none w).1.db.subscriptions
            ≡ w.db.subscriptions ++ s ∷ []
      rows s h = ground (arith, h)

  -- The row that the update finds is the one that was found before.
  renewed_lem :
      (org : Organization) (t : Subscription) (w : World) (s : Subscription)
      → UniqueSubscriptions w.db
      → Memᴰ t w.db.subscriptions
      → (put_grant env actor target now org (some t) w).0 ≡ ok s
      → (s ≡ renewed now t)
        × ((put_grant env actor target now org (some t) w).1.db ≡ record w.db {
          subscriptions = update_where (has_row_id t.id) (renewed now) w.db.subscriptions;
        })
  unfolding put_grant
  renewed_lem org t w s unique there h =
      elim (Option-cases (find (has_row_id t.id) w.db.subscriptions)) [
        | inl e ↦ absurd (ground (arith, e, h))
        | inr (row, e) ↦
            let same : row ≡ t =
              eq-of_count_one (has_row_id t.id) w.db.subscriptions row t
                (ground (
                  arith,
                  unique.one_at_most t.id,
                  count-pos-of_mem (has_row_id t.id) w.db.subscriptions t there (text_eq_refl t.id),
                ))
                (find-mem (has_row_id t.id) w.db.subscriptions row e) there
                (find_meets (has_row_id t.id) w.db.subscriptions row e) (text_eq_refl t.id) in
            (subst (λ r. s ≡ renewed now r) same (ground (arith, e, h)), ground (arith, e, h))
      ]

  pub renewed-Put :
      (org : Organization) (t : Subscription) (w : World) (s : Subscription)
      → UniqueSubscriptions w.db
      → Memᴰ t w.db.subscriptions
      → t.org_id ≡ org.id
      → (put_grant env actor target now org (some t) w).0 ≡ ok s
      → Put org w.db (put_grant env actor target now org (some t) w).1.db s
  renewed-Put org t w s unique there mine h =
      let (row, db) = renewed_lem org t w s unique there h in
      record {
        is_grant = record {
          tier = ap (λ (r : Subscription). r.tier_id) row;
          is_on = ap (λ (r : Subscription). r.status) row;
          begins = ap (λ (r : Subscription). r.period_start) row;
          ends = ap (λ (r : Subscription). r.period_end) row ∙ add_months-index now 24;
          unused = ap (λ (r : Subscription). r.usage_count) row;
        };
        present =
            subst (λ (d : Db). Memᴰ s d.subscriptions) (sym db)
              (subst (λ r. Memᴰ r (update_where (has_row_id t.id) (renewed now) w.db.subscriptions))
                (sym row)
                (mem-update_where (has_row_id t.id) (renewed now) w.db.subscriptions t there
                  (text_eq_refl t.id)));
        owned = ap (λ (r : Subscription). r.org_id) row ∙ mine;
        same_orgs = ap (λ (d : Db). d.organizations) db;
        same_audit = ap (λ (d : Db). d.audit_log) db;
      }
