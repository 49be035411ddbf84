-- ===== src/Tests/Grant.antt =====
-- A grant by an administrator.
use eps_dapp.Base.{Text, arith, ◌≡◌, refl, true, false, some, codes, text_eq}
use eps_dapp.Auth.{Session, require_org_admin, org_admin_role}
use eps_dapp.Effects.{ok, is_ok}
use eps_dapp.Grant.{
  parsed, granted, renewed, put_grant, audit_grant, grant_found, grant_to, grant, grant_target,
  grant_as, post_grant, Given, UniqueSubscriptions, post_grant-Given,
}
use eps_dapp.Webhook.{upsert_organization}
use eps_dapp.Samples.{sample_latest, sample_env, offline_env, sample_world, sample_subscription}

abbrev admin : Session
admin = record {
  user_id = some (codes "user_1");
  org_id = some (codes "org_9");
  has_role = text_eq org_admin_role;
}

grant_run :
    (post_grant sample_env admin (parsed (some (codes "org_1"))) sample_world).0
    ≡ ok (granted (renewed 1000 sample_subscription))
unfolding post_grant grant_as grant_target grant grant_to grant_found put_grant audit_grant
    upsert_organization require_org_admin text_eq
grant_run = refl

sample_unique : UniqueSubscriptions sample_world.db
sample_unique = record { one_at_most = λ id. ground arith }

post_grant-Given_example :
    (user : Text) × (org_id : Text) × (target : Text) × (admin.has_role (codes "org:admin") ≡ true)
    × (admin.user_id ≡ some user)
    × (admin.org_id ≡ some org_id)
    × (parsed (some (codes "org_1")) ≡ parsed (some target))
    × Given user org_id target 1000 sample_world.db
        (post_grant sample_env admin (parsed (some (codes "org_1"))) sample_world).1.db
        (renewed 1000 sample_subscription)
post_grant-Given_example =
    post_grant-Given sample_env admin (parsed (some (codes "org_1"))) sample_world
      (renewed 1000 sample_subscription) sample_latest sample_unique grant_run

offline_grant :
    is_ok (post_grant offline_env admin (parsed (some (codes "org_1"))) sample_world).0 ≡ false
unfolding post_grant grant_as grant_target grant upsert_organization require_org_admin text_eq
offline_grant = refl
