-- ===== src/Requests/Outcome.antt =====
-- app/api/service-requests/route.ts: what an answer of `POST` says of the tables, as a predicate, and
-- the steps of `POST` that leave the tables alone.
use mathlib.Core.List.{Memᴰ}
use eps_dapp.Base.{◌≡◌, true, false, Bool, none, some, arith, Text}
use eps_dapp.Db.{ServiceRequest, ServiceStatus, Db}
use eps_dapp.Effects.{World, Error, ok}
use eps_dapp.Ens.Resolver.{EnsClient, get_agent_ens_name, resolve_ens, resolve_trimmed}
use eps_dapp.Variables.{Variables}
use eps_dapp.Hedera.{bare_requests}
use eps_dapp.Requests.Input.{FilingInput}
use eps_dapp.Requests.Recipient.{resolve_recipient}
use eps_dapp.Requests.Filing.{
  FilingResponse, created, out_of_quota, no_plan, too_many, refused_401, invalid_json,
  invalid_input, name_unresolved, bad_recipient, quota_answer, recipient_answer,
}

-- A request as it is filed: STAGED, of the caller, and with neither a document nor a notice token.
pub record IsFiled (user id : Text) (row : ServiceRequest) : Type 0 where
  pub same_id : row.id ≡ id
  pub is_staged : row.status ≡ ServiceStatus.staged
  pub owned : row.user_id ≡ some user
  pub no_token : row.notice_token ≡ none
  pub no_document : row.document_sha256 ≡ none
  pub not_sent : row.tx_signature ≡ none

-- What an answer says: a request was filed, or the tables are as before.
abbrev pub Says : Text → FilingResponse → Db → Db → Type 0
Says user (created id status) before after =
    (row : ServiceRequest) × IsFiled user id row × Memᴰ row (bare_requests after)
Says user answer before after = after ≡ before

-- An answer that files nothing.
abbrev pub is_filing : FilingResponse → Bool
is_filing (created id status) = true
is_filing answer = false

pub keeps-Says :
    (user : Text) (a : FilingResponse) (before after : Db)
    → is_filing a ≡ false
    → after ≡ before
    → Says user a before after
keeps-Says user (created id status) before after e same = absurd (ground arith)
keeps-Says user (too_many headers) before after e same = same
keeps-Says user refused_401 before after e same = same
keeps-Says user invalid_json before after e same = same
keeps-Says user invalid_input before after e same = same
keeps-Says user name_unresolved before after e same = same
keeps-Says user (bad_recipient reason) before after e same = same
keeps-Says user no_plan before after e same = same
keeps-Says user out_of_quota before after e same = same

pub quota_answer_lem :
    (e : Error) (w : World)
    → ((quota_answer e w).1 ≡ w)
      × ((a : FilingResponse) → (quota_answer e w).0 ≡ ok a → is_filing a ≡ false)
unfolding quota_answer
quota_answer_lem e w = (ground arith, λ a h. ground arith)

pub recipient_answer_lem :
    (e : Error) (w : World)
    → ((recipient_answer e w).1 ≡ w)
      × ((a : FilingResponse) → (recipient_answer e w).0 ≡ ok a → is_filing a ≡ false)
unfolding recipient_answer
recipient_answer_lem e w = (ground arith, λ a h. ground arith)

pub agent_name-keeps :
    (ens : EnsClient) (vars : Variables) (w : World) → (get_agent_ens_name ens vars w).1.db ≡ w.db
unfolding get_agent_ens_name
agent_name-keeps ens vars w = ground arith

resolve-keeps :
    (ens : EnsClient) (vars : Variables) (input : Text) (w : World)
    → (resolve_ens ens vars input w).1.db ≡ w.db
unfolding resolve_ens resolve_trimmed
resolve-keeps ens vars input w = ground arith

pub recipient-keeps :
    (ens : EnsClient) (vars : Variables) (input : FilingInput) (w : World)
    → (resolve_recipient ens vars input w).1.db ≡ w.db
unfolding resolve_recipient
recipient-keeps ens vars input w = ground (arith, resolve-keeps ens vars input.recipient_wallet w)
