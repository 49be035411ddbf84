-- ===== src/Tests/Pdf.antt =====
-- The certificate of a sample request, over a font of one width.
use mathlib.Core.List.{Memᴰ}
use eps_dapp.Base.{
  ℕ, ◌-◌, ◌*◌, ◌≤◌, ◌+◌, if◌then◌else◌, Text, ◌≡◌, ◌⊎◌, refl, true, false, none, List, [], ◌∷◌, All,
  arith, codes, join_with, is_empty, length, ltb, text_eq,
}
use eps_dapp.Calendar.{utc_text}
use eps_dapp.Effects.{ok}
use eps_dapp.Notice.Access.{
  record_first_access, view_body, view_service, view_recorded, view_first, create_access,
  write_access, write_first_viewed_addendum, audit_access,
}
use eps_dapp.Notice.Mask.{mask_ip}
use eps_dapp.Pdf.{
  is_plain, PlainData, OneLine, wrap_lem, FitsLine, page_bounded, shows, certificate_shows_view,
}
use eps_dapp.Pdf.Render.{
  PdfLibrary, data_from, certificate_data, generate_certificate_pdf, render_found,
  render_certificate_pdf, encode_all, certificate_page, title_section, case_section,
  document_section, proof_section, view_section, topic_section, token_section,
}
use eps_dapp.Pdf.Wrap.{split_runs, wrap}
use eps_dapp.Pdf.Writer.{
  Drawing, a4_height, margin, heading, section, field, paragraph, gap, footer,
}
use eps_dapp.Samples.{sample_env, sample_world, sample_request}
use eps_dapp.Tests.Notice.{viewer_ip, browser, sample_result, view_run, viewed_world}

-- Letters of one width, and a file that says when it was written and how many texts it holds.
abbrev pub sample_library : PdfLibrary
sample_library = record {
  widths = λ is_bold text size. 100 * size * length text;
  encode_text = λ text. ok tt;
  save = λ t drawings. ok (37 ∷ t ∷ length drawings ∷ []);
}

no_empty_words : All (λ w. is_empty w ≡ false) (split_runs false (codes "proof of  delivery"))
unfolding split_runs
no_empty_words = (refl, (refl, (refl, tt)))

wrap_lem_example :
    (join_with b' ' (wrap sample_library.widths (codes "proof of  delivery") 9 10000)
      ≡ join_with b' ' (split_runs false (codes "proof of  delivery")))
    × All
        (λ line.
          (ltb 10000 (sample_library.widths false line 9) ≡ false)
          ⊎ Memᴰ line (split_runs false (codes "proof of  delivery")))
        (wrap sample_library.widths (codes "proof of  delivery") 9 10000)
wrap_lem_example =
    wrap_lem sample_library.widths (codes "proof of  delivery") 9 10000 no_empty_words

sample_fits : FitsLine sample_library.widths
sample_fits = record { short_fits = λ line le. omega arith }

-- Every text with a control unit is drawn as two lines.
abbrev two_lines : Text → ℕ
two_lines text = if is_plain text then 0 else 2400

sample_OneLine : OneLine two_lines
sample_OneLine = record { one_line = λ text h. ground (arith, h.plain) }

sample_plain : PlainData (data_from sample_request none)
sample_plain = record {
  caption = record { plain = refl };
  plaintiff = record { plain = refl };
  defendant = record { plain = refl };
  wallet = record { plain = refl };
  sha256 = record { plain = refl };
  signature = record { plain = refl };
  token = record { plain = refl };
  viewer_ip = record { plain = refl };
  topic = record { plain = refl };
  consensus = record { plain = refl };
  topic_url = record { plain = refl };
  nft = record { plain = refl };
  nft_url = record { plain = refl };
}

page_bounded_example :
    All
      (λ d. d.depth + two_lines d.text ≤ a4_height - margin)
      (certificate_page sample_library.widths (data_from sample_request none) 1000)
page_bounded_example =
    page_bounded sample_library.widths two_lines (data_from sample_request none) 1000 sample_fits
      sample_OneLine sample_plain

certificate_run :
    (generate_certificate_pdf sample_env sample_library (codes "r1") viewed_world).0
    ≡ ok (37 ∷ 5 ∷ 29 ∷ [])
unfolding generate_certificate_pdf render_found render_certificate_pdf certificate_data encode_all
    certificate_page title_section case_section document_section proof_section view_section
    topic_section token_section heading section field paragraph gap footer record_first_access
    view_body view_service view_recorded view_first create_access write_access
    write_first_viewed_addendum audit_access mask_ip text_eq
certificate_run = refl

certificate_shows_view_example :
    (t : ℕ) × (page : List Drawing) × (sample_library.save t page ≡ ok (37 ∷ 5 ∷ 29 ∷ []))
    × (shows (utc_text 1001) page ≡ true)
    × (shows (mask_ip viewer_ip) page ≡ true)
certificate_shows_view_example =
    certificate_shows_view sample_env sample_library (codes "r1") viewer_ip browser sample_world
      viewed_world sample_result (37 ∷ 5 ∷ 29 ∷ []) view_run refl refl certificate_run
