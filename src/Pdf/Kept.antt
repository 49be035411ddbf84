-- ===== src/Pdf/Kept.antt =====
-- lib/certificate-pdf.ts: a certificate is generated from the tables, and writes none.
use eps_dapp.Base.{◌≡◌, refl, Option, none, some, arith, Text}
use eps_dapp.Effects.{World, Env, ok, statement, >>=-keeps}
use eps_dapp.Pdf.Render.{
  PdfLibrary, CertificateData, certificate_data, render_certificate_pdf, render_found,
  generate_certificate_pdf,
}

module _ (env : Env) (lib : PdfLibrary) where
  render-keeps :
      (notice : Text) (found : Option CertificateData) (w : World)
      → (render_found env lib notice found w).1.db ≡ w.db
  unfolding render_found render_certificate_pdf
  render-keeps notice none w = refl
  render-keeps notice (some data_of) w = ground arith

  pub generate-keeps :
      (notice : Text) (w : World) → (generate_certificate_pdf env lib notice w).1.db ≡ w.db
  unfolding generate_certificate_pdf
  generate-keeps notice w =
      >>=-keeps (λ w. w.db) (statement env (λ db. (ok (certificate_data notice db), db)))
        (render_found env lib notice) w (ground arith) (render-keeps notice)
