-- ===== src/Requests/Tenants.antt =====
-- app/api/service-requests/[id]/route.ts: who can read a request.
use eps_dapp.Base.{◌≡◌, true, arith, Text, inl, inr, Option-cases, find, find_meets}
use eps_dapp.Auth.{Session, require_auth, text_of}
use eps_dapp.Db.{Db}
use eps_dapp.Effects.{World, Env, ok}
use eps_dapp.Http.{Caller}
use eps_dapp.Requests.Reading.{
  ServiceView, service, visible, in_org, found_service, read_service, read_as, read_counted,
  get_service_request,
}

found-visible :
    (id clerk : Text) (db : Db) (view : ServiceView)
    → found_service db (find (visible id clerk db) db.requests) ≡ service view
    → in_org clerk db view.request.org_id ≡ true
found-visible id clerk db view e = elim (Option-cases (find (visible id clerk db) db.requests)) [
  | inl n ↦ absurd (ground (arith, n))
  | inr (row, f) ↦ ground (arith, f, find_meets (visible id clerk db) db.requests row f)
]

module _ (env : Env) where
  -- A request that `GET` gives belongs to the organization of the caller's session, and reading it
  -- changes no table.
  pub get-in_org :
      (caller : Caller) (session : Session) (id : Text) (w : World) (view : ServiceView)
      → (get_service_request env caller session id w).0 ≡ ok (service view)
      → (in_org (text_of session.org_id) w.db view.request.org_id ≡ true)
        × ((get_service_request env caller session id w).1.db ≡ w.db)
  unfolding get_service_request read_counted read_as require_auth read_service
  get-in_org caller session id w view e =
      ground (arith, found-visible id (text_of session.org_id) w.db view)
