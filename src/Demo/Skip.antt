-- ===== src/Demo/Skip.antt =====
-- app/api/demo/skip-payment/route.ts: `POST`, and the steps that both routes of the mode begin
-- with.
use eps_dapp.Base.{Bool, false, ◌&&◌, Option, none, some, leb, length, if◌then◌else◌, Text, text_eq}
use eps_dapp.Auth.{Session, UserAuthContext, require_user}
use eps_dapp.Db.{ServiceRequest, ServiceStatus, requests_table}
use eps_dapp.Variables.{Variables, is_set_to}
use eps_dapp.Effects.{
  Action, Env, Result, ok, err, crashed, ◌>>=◌, pure, throw, find_unique, update, unauthorized,
}
use eps_dapp.Failure.{has_request_id}
use eps_dapp.Http.{Field, text, Body, malformed_json, not_an_object, fields}
use eps_dapp.Worker.{in_progress}

pub data SkipResponse : Type 0 where
  hidden refused_401 invalid_json invalid_input not_found : SkipResponse
  wrong_status : ServiceStatus → SkipResponse
  advanced : Text → ServiceStatus → SkipResponse

-- `NEXT_PUBLIC_DEMO_MODE === "true"`.
abbrev pub is_demo : Variables → Bool
is_demo vars = is_set_to vars "NEXT_PUBLIC_DEMO_MODE" "true"

-- `z.object({ id: z.string().min(1) })`.
abbrev pub id_of : Field → Option Text
id_of (text id) = if leb 1 (length id) then some id else none
id_of field = none

abbrev pub has_user : Text → Option Text → Bool
has_user user none = false
has_user user (some owner) = text_eq owner user

-- `where: { id, userId }`.
abbrev pub is_own : Text → Text → ServiceRequest → Bool
is_own id user r = has_request_id id r && has_user user r.user_id

module _ (env : Env) where
  -- Only a staged request is advanced.
  unfoldable pub skip_status : ServiceRequest → ServiceStatus → Action SkipResponse
  skip_status r ServiceStatus.staged =
      update env requests_table (has_request_id r.id) in_progress >>= λ row.
      pure (advanced row.id row.status)
  skip_status r status = pure (wrong_status status)

  unfoldable pub skip_found : Option ServiceRequest → Action SkipResponse
  skip_found none = pure not_found
  skip_found (some r) = skip_status r r.status

  unfoldable pub skip_own : UserAuthContext → Option Text → Action SkipResponse
  skip_own ctx none = pure invalid_input
  skip_own ctx (some id) = find_unique env requests_table (is_own id ctx.user_id) >>= skip_found

  unfoldable pub skip_body : UserAuthContext → Body Field → Action SkipResponse
  skip_body ctx malformed_json = pure invalid_json
  skip_body ctx not_an_object = pure invalid_input
  skip_body ctx (fields id) = skip_own ctx (id_of id)

  unfoldable pub skip_as : Result UserAuthContext → Body Field → Action SkipResponse
  skip_as (ok ctx) body = skip_body ctx body
  skip_as (err unauthorized) body = pure refused_401
  skip_as (err e) body = throw e
  skip_as crashed body = λ w. (crashed, w)

  unfoldable pub post_skip_payment : Variables → Session → Body Field → Action SkipResponse
  unfolding is_set_to
  post_skip_payment vars session body =
      if is_demo vars then skip_as (require_user session) body else pure hidden
