-- ===== src/System/Certificates.antt =====
-- lib/certificate-store.ts: whoever asks for a certificate leaves the requests alone.
use eps_dapp.Base.{refl, ap, Option, none, some, List, ℕ, arith, Text, Bool-cases, inl, inr}
use eps_dapp.Auth.{Session, AuthContext, require_auth}
use eps_dapp.Certificate.{
  Base64, not_found, certificate, get_or_create_certificate_pdf, certificate_or_create,
  keep_certificate, create_certificate, is_certificate_of, stored_bytes, give_certificate,
  certificate_as, certificate_counted, get_certificate,
}
use eps_dapp.Pdf.{generate-keeps}
use eps_dapp.Pdf.Render.{PdfLibrary, generate_certificate_pdf}
use eps_dapp.Db.{Db, CertificatePdf, certificates_table}
use eps_dapp.Effects.{Env, Result, ok, err, crashed, ◌>>=◌, ◌>>◌, pure, find_unique}
use eps_dapp.RateLimit.Lru
use eps_dapp.Lifecycle.{same-Evolved}
use eps_dapp.Http.{Caller}
use eps_dapp.System.Rules.{Keeps, Evolves, Keeps-Evolves, catch-Evolves, >>=-Evolves}

module _ (env : Env) (lib : PdfLibrary) (base64 : Base64) (notice : Text) where
  create-Keeps : (pdf : Text) → Keeps (create_certificate env lib base64 notice pdf)
  unfolding create_certificate
  create-Keeps pdf w = ground arith

  winner-Evolves :
      (bytes : List ℕ)
      → Evolves (
          find_unique env certificates_table (is_certificate_of notice) >>= λ row.
          pure (stored_bytes env lib base64 notice bytes row))
  winner-Evolves bytes =
      >>=-Evolves (find_unique env certificates_table (is_certificate_of notice))
        (λ row. pure (stored_bytes env lib base64 notice bytes row))
        (Keeps-Evolves (find_unique env certificates_table (is_certificate_of notice))
          (λ w. ground arith))
        (λ row. Keeps-Evolves (pure (stored_bytes env lib base64 notice bytes row)) (λ w. refl))

  keep-Evolves : (bytes : List ℕ) → Evolves (keep_certificate env lib base64 notice bytes)
  unfolding keep_certificate
  keep-Evolves bytes =
      catch-Evolves
        (create_certificate env lib base64 notice (base64.to_base64 bytes) >> pure bytes)
        (λ e. find_unique env certificates_table (is_certificate_of notice) >>= λ row.
          pure (stored_bytes env lib base64 notice bytes row))
        (>>=-Evolves (create_certificate env lib base64 notice (base64.to_base64 bytes))
          (λ _. pure bytes)
          (Keeps-Evolves (create_certificate env lib base64 notice (base64.to_base64 bytes))
            (create-Keeps (base64.to_base64 bytes)))
          (λ _. Keeps-Evolves (pure bytes) (λ w. refl)))
        (λ e. winner-Evolves bytes)

  found-Evolves :
      (found : Option CertificatePdf) → Evolves (certificate_or_create env lib base64 notice found)
  unfolding certificate_or_create
  found-Evolves (some row) = Keeps-Evolves (pure (base64.from_base64 row.pdf_base64)) (λ w. refl)
  found-Evolves none =
      >>=-Evolves (generate_certificate_pdf env lib notice) (keep_certificate env lib base64 notice)
        (Keeps-Evolves (generate_certificate_pdf env lib notice)
          (λ w. ap (λ (db : Db). db.requests) (generate-keeps env lib notice w)))
        keep-Evolves

  give-Evolves : Evolves (give_certificate env lib base64 notice)
  unfolding give_certificate get_or_create_certificate_pdf
  give-Evolves =
      catch-Evolves
        (get_or_create_certificate_pdf env lib base64 notice >>= λ bytes. pure (certificate bytes))
        (λ e. pure not_found)
        (>>=-Evolves (get_or_create_certificate_pdf env lib base64 notice)
          (λ bytes. pure (certificate bytes))
          (>>=-Evolves (find_unique env certificates_table (is_certificate_of notice))
            (certificate_or_create env lib base64 notice)
            (Keeps-Evolves (find_unique env certificates_table (is_certificate_of notice))
              (λ w. ground arith))
            found-Evolves)
          (λ bytes. Keeps-Evolves (pure (certificate bytes)) (λ w. refl)))
        (λ e. Keeps-Evolves (pure not_found) (λ w. refl))

  as-Evolves :
      (session : Result AuthContext) → Evolves (certificate_as env lib base64 notice session)
  unfolding certificate_as
  as-Evolves (ok ctx) w unique = give-Evolves w unique
  as-Evolves (err e) w unique = same-Evolved w.db _ unique (ground arith)
  as-Evolves crashed w unique = same-Evolved w.db _ unique refl

  module _ (session : Session) where
    counted-Evolves :
        (limit : Lru.RateLimitResult)
        → Evolves (certificate_counted env lib base64 notice session limit)
    unfolding certificate_counted
    counted-Evolves limit w unique = elim (Bool-cases limit.ok) [
      | inl e ↦ simp e (as-Evolves (require_auth session) w unique)
      | inr e ↦ same-Evolved w.db _ unique (ground (arith, e))
    ]

    pub certificate-Evolves :
        (caller : Caller) → Evolves (get_certificate env lib base64 notice caller session)
    unfolding get_certificate
    certificate-Evolves caller w unique = counted-Evolves _ _ unique
