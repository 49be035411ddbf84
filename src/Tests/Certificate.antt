-- ===== src/Tests/Certificate.antt =====
-- A certificate that is stored and given again.
use eps_dapp.Base.{ℕ, ◌≡◌, refl, true, List, [], ◌∷◌, codes, text_eq, any}
use eps_dapp.Effects.{World, ok}
use eps_dapp.Pdf.Render.{
  certificate_data, generate_certificate_pdf, render_found, render_certificate_pdf, encode_all,
  certificate_page, title_section, case_section, document_section, proof_section, view_section,
  topic_section, token_section,
}
use eps_dapp.Pdf.Writer.{heading, section, field, paragraph, gap, footer}
use eps_dapp.Tests.Pdf.{sample_library}
use eps_dapp.Certificate.{
  Base64, is_certificate_of, create_certificate, keep_certificate, certificate_or_create,
  get_or_create_certificate_pdf,
}
use eps_dapp.Certificate.Reused.{ReadsBase64, certificate_reused}
use eps_dapp.Samples.{sample_env, sample_world}

-- Base64 that leaves the bytes as they are.
abbrev sample_base64 : Base64
sample_base64 = record { to_base64 = λ bytes. bytes; from_base64 = λ text. text }

sample_reads : ReadsBase64 sample_base64
sample_reads = record { base64_round = λ bytes. refl }

-- The world after the first request.
abbrev given_world : World
given_world =
    (get_or_create_certificate_pdf sample_env sample_library sample_base64 (codes "r1")
      sample_world).1

first_run :
    (get_or_create_certificate_pdf sample_env sample_library sample_base64
      (codes "r1")
      sample_world).0
    ≡ ok (37 ∷ 2 ∷ 27 ∷ [])
unfolding get_or_create_certificate_pdf generate_certificate_pdf render_found render_certificate_pdf
    certificate_data encode_all certificate_page title_section case_section document_section
    proof_section view_section topic_section token_section heading section field paragraph gap
    footer certificate_or_create keep_certificate create_certificate text_eq
first_run = refl

stored_run : any (is_certificate_of (codes "r1")) given_world.db.certificates ≡ true
unfolding get_or_create_certificate_pdf generate_certificate_pdf render_found render_certificate_pdf
    certificate_data encode_all certificate_page title_section case_section document_section
    proof_section view_section topic_section token_section heading section field paragraph gap
    footer certificate_or_create keep_certificate create_certificate text_eq
stored_run = refl

again_run :
    (get_or_create_certificate_pdf sample_env sample_library sample_base64
      (codes "r1")
      given_world).0
    ≡ ok (37 ∷ 2 ∷ 27 ∷ [])
unfolding get_or_create_certificate_pdf generate_certificate_pdf render_found render_certificate_pdf
    certificate_data encode_all certificate_page title_section case_section document_section
    proof_section view_section topic_section token_section heading section field paragraph gap
    footer certificate_or_create keep_certificate create_certificate text_eq
again_run = refl

certificate_reused_example :
    (◌≡◌ {A = List ℕ} (37 ∷ 2 ∷ 27 ∷ []) (37 ∷ 2 ∷ 27 ∷ []))
    × ((get_or_create_certificate_pdf sample_env sample_library sample_base64
          (codes "r1")
          given_world).1.db
        ≡ given_world.db)
certificate_reused_example =
    certificate_reused sample_env sample_library sample_base64 (codes "r1") (37 ∷ 2 ∷ 27 ∷ [])
      (37 ∷ 2 ∷ 27 ∷ []) sample_world given_world sample_reads first_run stored_run refl again_run
