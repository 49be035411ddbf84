-- ===== src/Grant/Granted.antt =====
-- app/api/admin/comp-grant/route.ts: a grant that is not given.
use eps_dapp.Base.{◌≡◌, refl, false, some, none, arith, Bool-cases, inl, inr, Text, is_empty, ℕ}
use eps_dapp.Auth.{Session, AuthContext, require_org_admin}
use eps_dapp.Effects.{Env, World, Result, ok, err, crashed, is_ok, transaction-inv, ◌>>=◌}
use eps_dapp.Webhook.{upsert_organization}
use eps_dapp.Grant.Route.{
  GrantBody, malformed_json, parsed, grant_to, grant, grant_target, grant_as, post_grant,
}

module _ (env : Env) (actor : AuthContext) (target : Text) (now : ℕ) where
  grant-keeps :
      (w : World)
      → is_ok (grant env actor target now w).0 ≡ false
      → (grant env actor target now w).1.db ≡ w.db
  unfolding grant
  grant-keeps w =
      transaction-inv (λ r. is_ok r.0 ≡ false → r.1.db ≡ w.db)
        (upsert_organization env target >>= grant_to env actor target now) w
        (λ b e k. absurd (ground arith)) (λ r h k e. refl)

module _ (env : Env) where
  grant_target-keeps :
      (actor : AuthContext) (body : GrantBody) (w : World)
      → is_ok (grant_target env actor body w).0 ≡ false
      → (grant_target env actor body w).1.db ≡ w.db
  unfolding grant_target
  grant_target-keeps actor malformed_json w h = refl
  grant_target-keeps actor (parsed none) w h = refl
  grant_target-keeps actor (parsed (some target)) w h = elim (Bool-cases (is_empty target)) [
    | inl e ↦ ground arith
    | inr e ↦ simp e (grant-keeps env actor target (env.now w.tick) w (ground arith))
  ]

  grant_as-keeps :
      (actor : Result AuthContext) (body : GrantBody) (w : World)
      → is_ok (grant_as env actor body w).0 ≡ false
      → (grant_as env actor body w).1.db ≡ w.db
  unfolding grant_as
  grant_as-keeps (ok actor) body w h = grant_target-keeps actor body w h
  grant_as-keeps (err e) body w h = ground arith
  grant_as-keeps crashed body w h = refl

  -- A grant that throws or dies leaves every table as it was.
  pub post_grant-keeps :
      (session : Session) (body : GrantBody) (w : World)
      → is_ok (post_grant env session body w).0 ≡ false
      → (post_grant env session body w).1.db ≡ w.db
  unfolding post_grant
  post_grant-keeps session body w = grant_as-keeps (require_org_admin session) body w
