-- ===== src/Notice/Page.antt =====
-- app/n/[token]/page.tsx: `NoticePage`. The page shows the row's public columns.
use eps_dapp.Base.{
  ◌∷◌, ℕ, ◌-◌, Option, none, some, or_else, [], ◌++◌, leb, length, take, drop, is_empty,
  if◌then◌else◌, Text, codes,
}
use eps_dapp.Calendar.{utc_text}
use eps_dapp.RateLimit.Lru
use eps_dapp.Db.{ServiceRequest}
use eps_dapp.Effects.{Action, Env, ◌>>=◌, ◌>>◌, pure, catch}
use eps_dapp.Http.{Caller, caller_ip, count_lru}
use eps_dapp.Notice.Access.{FirstAccessResult, load_notice, record_first_access}
use eps_dapp.Notice.Mail.{Mailer, FirstAccessEmail, send_first_access_email}

-- The headers beside the caller's: the user agent, and those of the page's address.
pub record PageHeaders : Type 0 where
  pub caller : Caller
  pub user_agent : Option Text
  pub forwarded_proto : Option Text
  pub forwarded_host : Option Text
  pub host : Option Text

-- `truncateWallet(addr)`; the ellipsis is one unit.
unfoldable pub truncate_wallet : Text → Text
truncate_wallet addr =
    if leb (length addr) 12 then addr else take 4 addr ++ (0x2026 ∷ drop (length addr - 4) addr)

-- `solscanTxUrl(signature)`.
unfoldable pub solscan_tx_url : Text → Text
solscan_tx_url signature = codes "https://solscan.io/tx/" ++ signature ++ codes "?cluster=devnet"

-- `formatUtc(when)`.
unfoldable pub format_utc : Option ℕ → Text
format_utc none = codes "Pending confirmation"
format_utc (some t) = utc_text t

-- What the cover sheet shows.
pub record CoverSheet : Type 0 where
  pub caption : Text
  pub plaintiff : Text
  pub defendant : Text
  pub wallet : Text
  -- the `title` of the wallet
  pub wallet_title : Text
  pub service_date : Text
  -- the address and the signature of the link
  pub transaction : Option (Text × Text)
  pub certificate_url : Text

unfoldable pub cover_sheet : ServiceRequest → CoverSheet
unfolding truncate_wallet format_utc solscan_tx_url
cover_sheet r = record {
  caption = r.case_caption;
  plaintiff = r.plaintiff_name;
  defendant = r.defendant_name;
  wallet = truncate_wallet r.recipient_wallet;
  wallet_title = r.recipient_wallet;
  service_date = format_utc r.block_time;
  transaction = elim r.tx_signature [
    | none ↦ none
    | some s ↦ if is_empty s then none else some (solscan_tx_url s, s)
  ];
  certificate_url = codes "/api/n/" ++ or_else r.notice_token [] ++ codes "/certificate";
}

pub data PageResponse : Type 0 where
  rate_limited not_found : PageResponse
  sheet : CoverSheet → PageResponse

-- `noticeUrlFrom(requestHeaders, token)`.
unfoldable pub notice_url_from : PageHeaders → Text → Text
notice_url_from headers token =
    or_else headers.forwarded_proto (codes "https")
    ++ codes "://"
    ++ or_else headers.forwarded_host (or_else headers.host [])
    ++ codes "/n/"
    ++ token

abbrev pub access_email : PageHeaders → Text → Text → FirstAccessResult → FirstAccessEmail
access_email headers token to access = record {
  to = to;
  case_ref = access.case_ref;
  masked_ip = access.masked_ip;
  viewed_at = access.viewed_at;
  notice_url = notice_url_from headers token;
}

module _ (env : Env) (m : Mailer) (headers : PageHeaders) (token : Text) where
  -- The mail of a first view, to the owner if there is one.
  unfoldable pub mail_access : FirstAccessResult → Action (Unit {0})
  mail_access access =
      let to : Text = or_else access.owner_email [] in
      if access.is_first_access
      then if is_empty to
        then pure tt
        else (send_first_access_email m (access_email headers token to access) >> pure tt)
      else pure tt

  -- The view goes on record; a failure must not stop the page.
  unfoldable pub record_view : ServiceRequest → Action (Unit {0})
  record_view r =
      catch
        (record_first_access env r.id (caller_ip headers.caller) (or_else headers.user_agent [])
          >>= mail_access)
        (λ e. pure tt)

  unfoldable pub show_notice : Option ServiceRequest → Action PageResponse
  show_notice none = pure not_found
  show_notice (some r) = record_view r >> pure (sheet (cover_sheet r))

  unfoldable pub view_counted : Lru.RateLimitResult → Action PageResponse
  view_counted counted =
      if counted.ok then (load_notice env token >>= show_notice) else pure rate_limited

  unfoldable pub notice_page : Action PageResponse
  notice_page =
      count_lru env (codes "notice:" ++ caller_ip headers.caller) 20 60000 >>= view_counted
