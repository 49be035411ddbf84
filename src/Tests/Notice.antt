-- ===== src/Tests/Notice.antt =====
-- A notice that is viewed, twice.
use eps_dapp.Base.{
  ◌≡◌, ◌⊎◌, refl, true, none, some, [], ◌∷◌, ◌++◌, Text, codes, text_eq, trim, to_lower,
}
use eps_dapp.Base.Dict
use eps_dapp.RateLimit.Client.{client_ip_from_headers}
use eps_dapp.Http.{caller_ip, count_lru}
use eps_dapp.Db.{ServiceRequest}
use eps_dapp.Effects.{World, ok, crashed}
use eps_dapp.RateLimit.Lru
use eps_dapp.Notice.Mask.{mask_ip, is_token}
use eps_dapp.Notice.Access.{
  FirstAccessResult, load_notice, create_access, write_first_viewed_addendum, audit_access,
  write_access, view_first, view_recorded, view_service, view_body, record_first_access,
}
use eps_dapp.Notice.Page.{PageHeaders, sheet, cover_sheet, notice_page}
use eps_dapp.Notice.{Viewed, record-Viewed, viewed_once, page_shown}
use eps_dapp.Samples.{sample_env, sample_world, sample_db, sample_request}
use eps_dapp.Tests.Services.{sample_caller, sample_mailer}

abbrev pub browser : Text
browser = codes "browser"

abbrev pub viewer_ip : Text
viewer_ip = codes "10.0.0.1"

abbrev pub sample_result : FirstAccessResult
sample_result = record {
  is_first_access = true;
  owner_email = none;
  case_ref = codes "A v. B";
  masked_ip = codes "10.0.0.x";
  viewed_at = 1001;
}

pub view_run :
    (record_first_access sample_env (codes "r1") viewer_ip browser sample_world).0
    ≡ ok sample_result
unfolding record_first_access view_body view_service view_recorded view_first create_access
    write_access write_first_viewed_addendum audit_access mask_ip text_eq
view_run = refl

record-Viewed_example :
    Viewed sample_env
      (codes "r1")
      viewer_ip
      browser
      sample_db
      sample_result
      (record_first_access sample_env (codes "r1") viewer_ip browser sample_world).1.db
record-Viewed_example =
    record-Viewed sample_env (codes "r1") viewer_ip browser sample_world sample_result view_run

-- The world after the first view.
abbrev pub viewed_world : World
viewed_world = (record_first_access sample_env (codes "r1") viewer_ip browser sample_world).1

viewed_once_example :
    (record_first_access sample_env (codes "r1") (codes "::1") browser viewed_world).1.db
    ≡ viewed_world.db
viewed_once_example =
    viewed_once sample_env (codes "r1") viewer_ip browser (codes "::1") browser sample_world
      viewed_world sample_result view_run refl

abbrev sample_token : Text
sample_token = codes "0123456789abcdef0123456789abcdef"

abbrev shown_request : ServiceRequest
shown_request = record sample_request { notice_token = some sample_token }

abbrev shown_world : World
shown_world = record sample_world { db = record sample_db { requests = shown_request ∷ [] } }

abbrev pub sample_headers : PageHeaders
sample_headers = record {
  caller = sample_caller;
  user_agent = some browser;
  forwarded_proto = none;
  forwarded_host = none;
  host = some (codes "eps");
}

allowed_run :
    (Lru.rate_limit
      (codes "notice:" ++ caller_ip sample_caller)
      20
      60000
      (sample_env.now shown_world.tick)
      shown_world.lru_buckets).0.ok
    ≡ true
unfolding Lru.rate_limit Dict.get client_ip_from_headers
allowed_run = refl

load_run :
    (load_notice sample_env sample_token
      (count_lru sample_env (codes "notice:" ++ caller_ip sample_caller) 20 60000 shown_world).1).0
    ≡ ok (some shown_request)
unfolding load_notice is_token trim to_lower text_eq
load_run = refl

page_shown_example :
    ((notice_page sample_env sample_mailer sample_headers sample_token shown_world).0
      ≡ ok (sheet (cover_sheet shown_request)))
    ⊎ ((notice_page sample_env sample_mailer sample_headers sample_token shown_world).0 ≡ crashed)
page_shown_example =
    page_shown sample_env sample_mailer sample_headers sample_token shown_request shown_world
      allowed_run load_run
