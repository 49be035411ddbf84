-- ===== src/Requests/Reading.antt =====
-- app/api/service-requests/[id]/route.ts: `GET`. The answer is the row with the view of its notice
-- and whether it has a certificate.
use eps_dapp.Base.{
  Bool, false, ◌&&◌, Option, none, some, ◌++◌, any, find, if◌then◌else◌, Text, codes, text_eq,
}
use eps_dapp.Auth.{Session, AuthContext, require_auth}
use eps_dapp.RateLimit.Fixed
use eps_dapp.Db.{Organization, ServiceRequest, NoticeAccess, CertificatePdf, Db}
use eps_dapp.Effects.{
  Action, Env, Result, ok, err, crashed, ◌>>=◌, pure, throw, statement, unauthorized,
  no_organization,
}
use eps_dapp.Http.{Caller, count_fixed, caller_key}

pub record ServiceView : Type 0 where
  pub request : ServiceRequest
  pub access : Option NoticeAccess
  pub has_certificate : Bool

pub data ReadingResponse : Type 0 where
  too_many : Fixed.RateLimitHeaders → ReadingResponse
  refused_401 not_found : ReadingResponse
  service : ServiceView → ReadingResponse

abbrev pub read_limit : Fixed.RateLimitOptions
read_limit = record { limit = 10; window_ms = 60000 }

-- `where: { id, organization: { clerkOrgId } }`: a row without an organization is nobody's.
abbrev pub in_org : Text → Db → Option Text → Bool
in_org clerk db none = false
in_org clerk db (some org) =
    any (λ (o : Organization). text_eq o.id org && text_eq o.clerk_org_id clerk) db.organizations

abbrev pub visible : Text → Text → Db → ServiceRequest → Bool
visible id clerk db r = text_eq r.id id && in_org clerk db r.org_id

abbrev pub view_of : Db → ServiceRequest → ServiceView
view_of db r = record {
  request = r;
  access = find (λ (a : NoticeAccess). text_eq a.notice_id r.id) db.accesses;
  has_certificate = any (λ (c : CertificatePdf). text_eq c.notice_id r.id) db.certificates;
}

abbrev pub found_service : Db → Option ServiceRequest → ReadingResponse
found_service db none = not_found
found_service db (some r) = service (view_of db r)

module _ (env : Env) where
  unfoldable pub read_service : Text → AuthContext → Action ReadingResponse
  unfolding text_eq
  read_service id ctx =
      statement env
        (λ db. (ok (found_service db (find (visible id ctx.org_id db) db.requests)), db))

  unfoldable pub read_as : Text → Result AuthContext → Action ReadingResponse
  read_as id (ok ctx) = read_service id ctx
  read_as id (err unauthorized) = pure refused_401
  read_as id (err no_organization) = pure refused_401
  read_as id (err e) = throw e
  read_as id crashed = λ w. (crashed, w)

  unfoldable pub read_counted : Session → Text → Fixed.RateLimitResult → Action ReadingResponse
  unfolding Fixed.rate_limit_headers
  read_counted session id rl =
      if rl.ok
      then read_as id (require_auth session)
      else pure (too_many (Fixed.rate_limit_headers rl))

  unfoldable pub get_service_request : Caller → Session → Text → Action ReadingResponse
  get_service_request caller session id =
      count_fixed env (codes "service-request:" ++ caller_key caller) read_limit
      >>= read_counted session id
