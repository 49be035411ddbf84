-- ===== src/Grant/Tables.antt =====
-- app/api/admin/comp-grant/route.ts: what a grant that is given leaves in the tables.
use mathlib.Core.List.{Memᴰ}
use eps_dapp.Base.{
  ℕ, ◌≤◌, ◌≡◌, refl, ap, sym, subst, ◌∙◌, Bool, true, Option, none, some, List, [], ◌∷◌, ◌++◌,
  arith, Text, codes, count, find, text_eq, text_eq→eq, is_empty, Bool-cases, inl, inr,
}
use eps_dapp.Auth.{Session, AuthContext, require_org_admin}
use eps_dapp.Db.{AuditLog, Db, Organization, Subscription}
use eps_dapp.Effects.{
  Env, World, Result, ok, err, crashed, >>=-inv, transaction-inv, ◌>>=◌, find_first_subscription,
}
use eps_dapp.Quota.{FindsLatest}
use eps_dapp.Webhook.{upsert_organization}
use eps_dapp.Grant.Route.{
  GrantBody, malformed_json, parsed, granted, has_row_id, grant_audit, put_grant, audit_grant,
  grant_found, grant_to, grant, grant_target, grant_as, post_grant,
}
use eps_dapp.Grant.Put.{
  is_target, Given, UniqueSubscriptions, Put, upsert_lem, made-Put, renewed-Put,
}

module _ (env : Env) (actor : AuthContext) (target : Text) (now : ℕ) where
  -- What is left once the row is put, with the table of organizations as it then is.
  found-Given :
      (org : Organization) (found : Option Subscription) (w : World) (s : Subscription)
      → ((t : Subscription) → found ≡ some t → Memᴰ t w.db.subscriptions × (t.org_id ≡ org.id))
      → UniqueSubscriptions w.db
      → find (is_target target) w.db.organizations ≡ some org
      → (grant_found env actor target now org found w).0 ≡ ok (granted s)
      → Given actor.user_id actor.org_id target now w.db
          (grant_found env actor target now org found w).1.db
          s
  unfolding grant_found
  found-Given org found w s there unique known =
      >>=-inv
        (λ r. r.0 ≡ ok (granted s) → Given actor.user_id actor.org_id target now w.db r.1.db s)
        (put_grant env actor target now org found) w (audit_grant env actor target now)
        (λ t h k.
          let w' = (put_grant env actor target now org found w).1 in
          let (same, after) = audit_lem t s w' k in
          let put =
            subst (Put env actor target now org w.db w'.db) same (put_lem found t there h) in
          record {
            is_grant = put.is_grant;
            present = subst (λ (d : Db). Memᴰ s d.subscriptions) (sym after) put.present;
            org = org;
            known =
                ap (λ (d : Db). find (is_target target) d.organizations) after
                ∙ ap (find (is_target target)) put.same_orgs
                ∙ known;
            owned = put.owned;
            audit_id = env.fresh_id w'.tick;
            audited =
                ap (λ (d : Db). d.audit_log) after
                ∙ ap (λ log. log ++ grant_audit (env.fresh_id w'.tick) actor target s ∷ [])
                    put.same_audit;
          })
        (λ r h k e. absurd (ground arith))
    where
      audit_lem :
          (t s : Subscription) (w : World)
          → (audit_grant env actor target now t w).0 ≡ ok (granted s)
          → (t ≡ s)
            × ((audit_grant env actor target now t w).1.db ≡ record w.db {
              audit_log = w.db.audit_log ++ grant_audit (env.fresh_id w.tick) actor target s ∷ [];
            })
      audit_lem t s w h = unfold audit_grant in ground arith

      put_lem :
          (found : Option Subscription) (t : Subscription)
          → ((u : Subscription) → found ≡ some u → Memᴰ u w.db.subscriptions × (u.org_id ≡ org.id))
          → (put_grant env actor target now org found w).0 ≡ ok t
          → Put env actor target now org w.db (put_grant env actor target now org found w).1.db t
      put_lem none t there h = made-Put env actor target now org w t h
      put_lem (some u) t there h =
          renewed-Put env actor target now org u w t unique (there u refl).0 (there u refl).1 h

  abbrev of_org : Organization → Subscription → Bool
  of_org org s = text_eq s.org_id org.id

  first_lem :
      (org : Organization) (w : World) (found : Option Subscription)
      → (find_first_subscription env (λ db s. text_eq s.org_id org.id) w).0 ≡ ok found
      → (env.first_subscription (of_org org) w.db.subscriptions ≡ found)
        × ((find_first_subscription env (λ db s. text_eq s.org_id org.id) w).1.db ≡ w.db)
  first_lem org w found h = ground (arith, h)

  to-Given :
      (org : Organization) (w : World) (s : Subscription)
      → FindsLatest env
      → UniqueSubscriptions w.db
      → find (is_target target) w.db.organizations ≡ some org
      → (grant_to env actor target now org w).0 ≡ ok (granted s)
      → Given actor.user_id actor.org_id target now w.db
          (grant_to env actor target now org w).1.db
          s
  unfolding grant_to
  to-Given org w s law unique known =
      >>=-inv
        (λ r. r.0 ≡ ok (granted s) → Given actor.user_id actor.org_id target now w.db r.1.db s)
        (find_first_subscription env (λ db s. text_eq s.org_id org.id)) w
        (grant_found env actor target now org)
        (λ found h k.
          let w' = (find_first_subscription env (λ db s. text_eq s.org_id org.id) w).1 in
          let (first, same) = first_lem org w found h in
          subst
            (λ db.
              Given actor.user_id actor.org_id target now db
                (grant_found env actor target now org found w').1.db s)
            same
            (found-Given org found w' s
              (λ t e. (
                subst (λ (d : Db). Memᴰ t d.subscriptions) (sym same)
                    (law.found_mem (of_org org) w.db.subscriptions t (first ∙ e)),
                text_eq→eq t.org_id org.id
                    (law.found_meets (of_org org) w.db.subscriptions t (first ∙ e)),
              ))
              (subst UniqueSubscriptions (sym same) unique)
              (ap (λ (d : Db). find (is_target target) d.organizations) same ∙ known) k))
        (λ r h k e. absurd (ground arith))

  body-Given :
      (w : World) (s : Subscription)
      → FindsLatest env
      → UniqueSubscriptions w.db
      → ((upsert_organization env target >>= grant_to env actor target now) w).0 ≡ ok (granted s)
      → Given actor.user_id actor.org_id target now w.db
          ((upsert_organization env target >>= grant_to env actor target now) w).1.db
          s
  body-Given w s law unique =
      >>=-inv
        (λ r. r.0 ≡ ok (granted s) → Given actor.user_id actor.org_id target now w.db r.1.db s)
        (upsert_organization env target) w (grant_to env actor target now)
        (λ org h k.
          let w' = (upsert_organization env target w).1 in
          let (known, same_rows, same_log) = upsert_lem env actor target now w org h in
          let given =
            to-Given org w' s law
              (record {
                one_at_most = λ id.
                    subst (λ rows. count (has_row_id id) rows ≤ 1) (sym same_rows)
                      (unique.one_at_most id);
              })
              known k in
          record {
            is_grant = given.is_grant;
            present = given.present;
            org = given.org;
            known = given.known;
            owned = given.owned;
            audit_id = given.audit_id;
            audited =
                given.audited
                ∙ ap
                    (λ (log : List AuditLog). log ++ grant_audit given.audit_id actor target s ∷ [])
                    same_log;
          })
        (λ r h k e. absurd (ground arith))

  grant-Given :
      (w : World) (s : Subscription)
      → FindsLatest env
      → UniqueSubscriptions w.db
      → (grant env actor target now w).0 ≡ ok (granted s)
      → Given actor.user_id actor.org_id target now w.db (grant env actor target now w).1.db s
  unfolding grant
  grant-Given w s law unique =
      transaction-inv
        (λ r. r.0 ≡ ok (granted s) → Given actor.user_id actor.org_id target now w.db r.1.db s)
        (upsert_organization env target >>= grant_to env actor target now) w
        (λ b e k. body-Given w s law unique (e ∙ k)) (λ r h k e. absurd (ground arith))

module _ (env : Env) where
  -- Of whom the body asks for, and by whom.
  abbrev pub GivenTo : AuthContext → GrantBody → World → Db → Subscription → Type 0
  GivenTo actor body w after s =
      (target : Text) × (body ≡ parsed (some target))
      × Given actor.user_id actor.org_id target (env.now w.tick) w.db after s

  target-Given :
      (actor : AuthContext) (body : GrantBody) (w : World) (s : Subscription)
      → FindsLatest env
      → UniqueSubscriptions w.db
      → (grant_target env actor body w).0 ≡ ok (granted s)
      → GivenTo actor body w (grant_target env actor body w).1.db s
  unfolding grant_target
  target-Given actor malformed_json w s law unique h = absurd (ground arith)
  target-Given actor (parsed none) w s law unique h = absurd (ground arith)
  target-Given actor (parsed (some target)) w s law unique h = elim (Bool-cases (is_empty target)) [
    | inl e ↦ absurd (ground (arith, e, h))
    | inr e ↦ simp e (
      target,
      refl,
      grant-Given env actor target (env.now w.tick) w s law unique (ground (arith, e, h)),
    )
  ]

  as-Given :
      (who : Result AuthContext) (body : GrantBody) (w : World) (s : Subscription)
      → FindsLatest env
      → UniqueSubscriptions w.db
      → (grant_as env who body w).0 ≡ ok (granted s)
      → (actor : AuthContext) × (who ≡ ok actor)
        × GivenTo actor body w (grant_as env who body w).1.db s
  unfolding grant_as
  as-Given (ok actor) body w s law unique h =
      (actor, refl, target-Given actor body w s law unique h)
  as-Given (err e) body w s law unique h = absurd (ground arith)
  as-Given crashed body w s law unique h = absurd (ground arith)

  admin_lem :
      (session : Session) (actor : AuthContext)
      → require_org_admin session ≡ ok actor
      → (session.has_role (codes "org:admin") ≡ true)
        × (session.user_id ≡ some actor.user_id)
        × (session.org_id ≡ some actor.org_id)
  unfolding require_org_admin
  admin_lem session actor h = ground (arith, h)

  -- A grant that is given was asked for by an administrator of the session's organization. For the
  -- organization that the body names, the table then has the subscription of the answer: of tier 3,
  -- active and unused, from now on to the same day and time 24 months later. One audit row says that
  -- the session's user granted it. `findFirst` finds the latest subscription, and ids are unique.
  pub post_grant-Given :
      (session : Session) (body : GrantBody) (w : World) (s : Subscription)
      → FindsLatest env
      → UniqueSubscriptions w.db
      → (post_grant env session body w).0 ≡ ok (granted s)
      → (user : Text) × (org_id : Text) × (target : Text) × (session.has_role (codes "org:admin")
          ≡ true)
        × (session.user_id ≡ some user)
        × (session.org_id ≡ some org_id)
        × (body ≡ parsed (some target))
        × Given user org_id target (env.now w.tick) w.db (post_grant env session body w).1.db s
  unfolding post_grant
  post_grant-Given session body w s law unique h =
      let (actor, allowed, of_actor) = as-Given (require_org_admin session) body w s law unique h in
      let (role, user, org) = admin_lem session actor allowed in
      (actor.user_id, actor.org_id, of_actor.0, role, user, org, of_actor.1, of_actor.2)
