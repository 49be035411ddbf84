-- ===== src/Auth.antt =====
-- lib/auth.ts: who a request is from. The session is Clerk's (`auth()`), verified there.
use eps_dapp.Base.{Bool, Option, [], or_else, is_empty, if◌then◌else◌, Text, codes}
use eps_dapp.Effects.{Result, ok, err, unauthorized, no_organization, forbidden}

pub record Session : Type 0 where
  pub user_id : Option Text
  pub org_id : Option Text
  pub has_role : Text → Bool

pub record AuthContext : Type 0 where
  pub user_id : Text
  pub org_id : Text

pub record UserAuthContext : Type 0 where
  pub user_id : Text
  pub org_id : Option Text

abbrev pub org_admin_role : Text
org_admin_role = codes "org:admin"

-- Missing or empty text is falsy.
abbrev pub text_of : Option Text → Text
text_of value = or_else value []

unfoldable pub require_auth : Session → Result AuthContext
require_auth s =
    if is_empty (text_of s.user_id)
    then err unauthorized
    else if is_empty (text_of s.org_id)
    then err no_organization
    else ok (record { user_id = text_of s.user_id; org_id = text_of s.org_id })

unfoldable pub require_user : Session → Result UserAuthContext
require_user s =
    if is_empty (text_of s.user_id)
    then err unauthorized
    else ok (record { user_id = text_of s.user_id; org_id = s.org_id })

unfoldable pub require_org_admin : Session → Result AuthContext
require_org_admin s =
    if is_empty (text_of s.user_id)
    then err unauthorized
    else if is_empty (text_of s.org_id)
    then err no_organization
    else if s.has_role org_admin_role
    then ok (record { user_id = text_of s.user_id; org_id = text_of s.org_id })
    else err forbidden
