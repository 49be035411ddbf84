-- ===== src/System/Reached.antt =====
-- The program as a whole: its operations, one after the other and in any order, each with any answers
-- of the services, and what they keep of the table of requests.
use mathlib.Core.List.{Memᴰ}
use eps_dapp.Base.{ℕ, ◌≡◌, Option, some, Text, ap, refl, sym, subst, List, false}
use eps_dapp.Auth.{Session}
use eps_dapp.Certificate.{Base64, get_certificate}
use eps_dapp.Db.{Db, ServiceRequest}
use eps_dapp.Demo.Fulfill.{post_fulfill}
use eps_dapp.Demo.Skip.{post_skip_payment}
use eps_dapp.Demo.{skip-Follows, fulfill-Follows}
use eps_dapp.Effects.{World, Env, Error}
use eps_dapp.Ens.Resolver.{EnsClient}
use eps_dapp.Grant.{GrantBody, post_grant}
use eps_dapp.Hedera.Sdk.{Hedera}
use eps_dapp.Hedera.Tasks.{run_anchor, run_transfer}
use eps_dapp.Http.{Body, Caller, Field}
use eps_dapp.Intake.{CreateServiceRequestInput, create_service_request}
use eps_dapp.Lifecycle.{
  UniqueIds, Advances, Extends, all_new, kept, Evolved, same-Evolved, Evolved-trans,
  Follows-Evolved, terms, final-Reaches,
}
use eps_dapp.Notice.Mail.{Mailer}
use eps_dapp.Notice.Page.{PageHeaders, notice_page}
use eps_dapp.Pdf.Render.{PdfLibrary}
use eps_dapp.Requests.Filing.{post_service_request}
use eps_dapp.Requests.Input.{RawInput}
use eps_dapp.Solana.{Rpc}
use eps_dapp.Storage.{Vault}
use eps_dapp.Variables.{Variables}
use eps_dapp.Webhook.{Stripe, post}
use eps_dapp.Worker.{FindsRequest, is_claimable, run_once, main}
use eps_dapp.System.Billing.{webhook-Evolves, grant-Evolves}
use eps_dapp.System.Certificates.{certificate-Evolves}
use eps_dapp.System.Filing.{filing-Evolves}
use eps_dapp.System.Intake.{intake-Evolves}
use eps_dapp.System.Polling.{run_once-Evolves, main-Evolves}
use eps_dapp.System.Proofs.{run_anchor-Evolves, run_transfer-Evolves}
use eps_dapp.System.Views.{page-Evolves}

-- One operation, with whatever its services answer.
pub data Operates : World → World → Type 0 where
  -- what happens elsewhere: on a chain, in a store, to the clock
  elsewhere : {w w' : World} → w'.db ≡ w.db → Operates w w'
  files :
      (env : Env) (rpc : Rpc) (ens : EnsClient) (h : Hedera) (caller : Caller) (session : Session)
      (body : Body RawInput) (w : World)
      → Operates w (post_service_request env rpc ens h caller session body w).1
  stages :
      (env : Env) (v : Vault) (input : CreateServiceRequestInput) (w : World)
      → Operates w (create_service_request v env input w).1
  works :
      (env : Env) (finds : FindsRequest env) (rpc : Rpc) (message : Error → Text) (w : World)
      → Operates w (run_once env rpc message w).1
  serves :
      (env : Env) (finds : FindsRequest env) (rpc : Rpc) (message : Error → Text) (vars : Variables)
      (rounds : ℕ) (w : World)
      → Operates w (main env rpc message vars rounds w).1
  anchors :
      (env : Env) (h : Hedera) (row : ServiceRequest) (w : World)
      → Operates w (run_anchor env h row w).1
  transfers :
      (env : Env) (h : Hedera) (row : ServiceRequest) (w : World)
      → Operates w (run_transfer env h row w).1
  shows :
      (env : Env) (m : Mailer) (headers : PageHeaders) (token : Text) (w : World)
      → Operates w (notice_page env m headers token w).1
  certifies :
      (env : Env) (lib : PdfLibrary) (base64 : Base64) (notice : Text) (caller : Caller)
      (session : Session) (w : World)
      → Operates w (get_certificate env lib base64 notice caller session w).1
  skips :
      (env : Env) (vars : Variables) (session : Session) (body : Body Field) (w : World)
      → Operates w (post_skip_payment env vars session body w).1
  fulfills :
      (env : Env) (h : Hedera) (session : Session) (body : Body Field) (w : World)
      → Operates w (post_fulfill env h session body w).1
  subscribes :
      (env : Env) (stripe : Stripe) (signature : Option Text) (payload : Text) (w : World)
      → Operates w (post env stripe signature payload w).1
  grants :
      (env : Env) (session : Session) (body : GrantBody) (w : World)
      → Operates w (post_grant env session body w).1

pub data Runs : World → World → Type 0 where
  stays : {w : World} → Runs w w
  goes_on : {w mid later : World} → Operates w mid → Runs mid later → Runs w later

Operates-Evolved : {w w' : World} → UniqueIds w.db → Operates w w' → Evolved w.db w'.db
Operates-Evolved unique (elsewhere {w = w} {w' = w'} same) =
    same-Evolved w.db w'.db unique (ap (λ (db : Db). db.requests) same)
Operates-Evolved unique (files env rpc ens h caller session body w) =
    filing-Evolves env rpc ens h caller session body w unique
Operates-Evolved unique (stages env v input w) = intake-Evolves env input v w unique
Operates-Evolved unique (works env finds rpc message w) =
    run_once-Evolves env finds rpc message w unique
Operates-Evolved unique (serves env finds rpc message vars rounds w) =
    main-Evolves env finds rpc message vars rounds w unique
Operates-Evolved unique (anchors env h row w) = run_anchor-Evolves env h row w unique
Operates-Evolved unique (transfers env h row w) = run_transfer-Evolves env h row w unique
Operates-Evolved unique (shows env m headers token w) = page-Evolves env m headers token w unique
Operates-Evolved unique (certifies env lib base64 notice caller session w) =
    certificate-Evolves env lib base64 notice session caller w unique
Operates-Evolved unique (skips env vars session body w) =
    Follows-Evolved w.db _ unique (skip-Follows env vars session body w unique)
Operates-Evolved unique (fulfills env h session body w) =
    Follows-Evolved w.db _ unique (fulfill-Follows env h session body w unique)
Operates-Evolved unique (subscribes env stripe signature payload w) =
    webhook-Evolves env stripe signature payload w unique
Operates-Evolved unique (grants env session body w) = grant-Evolves env session body w unique

-- The operations of the program, one after the other and in any order, with any answers of the
-- services, keep the ids of requests unique, and every request that was there: in its place, with what
-- was asked for, a signature that was on record, and a status that its own leads to. `findFirst` finds
-- what it is asked for.
pub Runs-Evolved : {w later : World} → UniqueIds w.db → Runs w later → Evolved w.db later.db
Runs-Evolved unique (stays {w = w}) = same-Evolved w.db w.db unique (refl)
Runs-Evolved unique (goes_on step run) =
    let first = Operates-Evolved unique step in Evolved-trans first (Runs-Evolved first.unique run)

-- Row by row: the row that a row has become.
Extends-mem :
    {rows later : List ServiceRequest} (r : ServiceRequest)
    → Extends rows later
    → Memᴰ r rows
    → (s : ServiceRequest) × Memᴰ s later × Advances r s
Extends-mem r all_new m = elim m [ ]
Extends-mem r (kept {r = q} {s = s} a f) (Memᴰ.head e) =
    (s, Memᴰ.head refl, subst (λ r. Advances r s) (sym e) a)
Extends-mem r (kept a f) (Memᴰ.tail m) =
    let (s, there, advanced) = Extends-mem r f m in (s, Memᴰ.tail there, advanced)

-- A request that is confirmed or failed with a signature on record is in the table for good, with that
-- status, that signature, and what was asked for, whatever operations of the program follow, with any
-- answers of the services. They come one after the other, ids are unique, and `findFirst` finds what it
-- is asked for.
pub settled_stays :
    {w later : World} (r : ServiceRequest) (signature : Text)
    → UniqueIds w.db
    → Runs w later
    → Memᴰ r w.db.requests
    → is_claimable r.status ≡ false
    → r.tx_signature ≡ some signature
    → (s : ServiceRequest) × Memᴰ s later.db.requests
      × (terms s ≡ terms r)
      × (s.status ≡ r.status)
      × (s.tx_signature ≡ some signature)
settled_stays r signature unique run there settled signed =
    let (s, present, a) = Extends-mem r (Runs-Evolved unique run).extends there in
    (s, present, a.same_terms, final-Reaches settled a.reached, a.keeps_signature signature signed)
