-- ===== src/Certificate.antt =====
-- lib/certificate-store.ts and app/api/certificate/[noticeId]/route.ts: the certificate of a
-- notice, which is generated once.
pub mod Reused
use eps_dapp.Base.{
  ℕ, ◌+◌, ◌-◌, ◌/◌, Bool, ◌||◌, Option, none, some, List, if◌then◌else◌, Text, text_eq,
}
use eps_dapp.Auth.{Session, AuthContext, require_auth}
use eps_dapp.Pdf.Render.{PdfLibrary, generate_certificate_pdf}
use eps_dapp.RateLimit.Lru
use eps_dapp.Db.{CertificatePdf, certificates_table}
use eps_dapp.Effects.{
  Action, Env, Result, ok, err, crashed, ◌>>=◌, ◌>>◌, pure, throw, catch, find_unique, statement,
  unauthorized, no_organization,
}
use eps_dapp.Http.{Caller, caller_ip, count_lru}
use eps_dapp.Notice.Access.{insert_for_notice}

-- Base64, as `Buffer` writes and reads it.
pub record Base64 : Type 0 where
  pub to_base64 : List ℕ → Text
  pub from_base64 : Text → List ℕ

abbrev pub is_certificate_of : Text → CertificatePdf → Bool
is_certificate_of notice c = text_eq c.notice_id notice

abbrev pub certificate_row : Text → Text → Text → CertificatePdf
certificate_row id notice pdf = record { id = id; notice_id = notice; pdf_base64 = pdf }

module _ (env : Env) (lib : PdfLibrary) (base64 : Base64) (notice : Text) where
  -- `prisma.certificatePdf.create`.
  unfoldable pub create_certificate : Text → Action CertificatePdf
  create_certificate pdf w =
      statement env
        (insert_for_notice certificates_table
          (λ (c : CertificatePdf). is_certificate_of notice c || text_eq c.id (env.fresh_id w.tick))
          notice (certificate_row (env.fresh_id w.tick) notice pdf))
        w

  abbrev pub stored_bytes : List ℕ → Option CertificatePdf → List ℕ
  stored_bytes bytes none = bytes
  stored_bytes bytes (some row) = base64.from_base64 row.pdf_base64

  -- The write, and what the winner of a race stored if it fails.
  unfoldable pub keep_certificate : List ℕ → Action (List ℕ)
  keep_certificate bytes = catch (create_certificate (base64.to_base64 bytes) >> pure bytes) (λ e.
      find_unique env certificates_table (is_certificate_of notice) >>= λ row.
      pure (stored_bytes bytes row))

  unfoldable pub certificate_or_create : Option CertificatePdf → Action (List ℕ)
  certificate_or_create (some row) = pure (base64.from_base64 row.pdf_base64)
  certificate_or_create none = generate_certificate_pdf env lib notice >>= keep_certificate

  -- `getOrCreateCertificatePdf(noticeId)`.
  unfoldable pub get_or_create_certificate_pdf : Action (List ℕ)
  get_or_create_certificate_pdf =
      find_unique env certificates_table (is_certificate_of notice) >>= certificate_or_create

pub data CertificateResponse : Type 0 where
  too_many : ℕ → CertificateResponse
  refused_401 not_found : CertificateResponse
  certificate : List ℕ → CertificateResponse

module _ (env : Env) (lib : PdfLibrary) (base64 : Base64) (notice : Text) where
  -- Any failure to get the certificate is answered as a notice that is not there.
  unfoldable pub give_certificate : Action CertificateResponse
  give_certificate =
      catch
        (get_or_create_certificate_pdf env lib base64 notice >>= λ bytes. pure (certificate bytes))
        (λ e. pure not_found)

  unfoldable pub certificate_as : Result AuthContext → Action CertificateResponse
  certificate_as (ok ctx) = give_certificate
  certificate_as (err unauthorized) = pure refused_401
  certificate_as (err no_organization) = pure refused_401
  certificate_as (err e) = throw e
  certificate_as crashed = λ w. (crashed, w)

  -- `Math.max(0, Math.ceil((resetAt - now) / 1000))`.
  unfoldable pub certificate_counted : Session → Lru.RateLimitResult → Action CertificateResponse
  certificate_counted session limit w =
      if limit.ok
      then certificate_as (require_auth session) w
      else (ok (too_many ((limit.reset_at - env.now w.tick + 999) / 1000)), w)

  -- `GET`.
  unfoldable pub get_certificate : Caller → Session → Action CertificateResponse
  get_certificate caller session =
      count_lru env (caller_ip caller) 10 60000 >>= certificate_counted session
