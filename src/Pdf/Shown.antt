-- ===== src/Pdf/Shown.antt =====
-- lib/certificate-pdf.ts: the certificate shows when the notice was first viewed, and from where.
use eps_dapp.Base.{
  ℕ, ◌+◌, ◌≡◌, refl, ap, sym, subst, ◌∙◌, Bool, true, false, some, List, [], ◌++◌, arith, Text, any,
  find, any-append, any-append_last, find-append_last, find-none, find-some, text_eq, text_eq_refl,
  text_eq→eq, find_meets, is_empty, or_else, Bool-cases, inl, inr, codes,
}
use eps_dapp.Calendar.{utc_text}
use eps_dapp.Db.{Db, CertificateAddendum}
use eps_dapp.Effects.{World, Env, ok, Result-cases}
use eps_dapp.Failure.{has_request_id}
use eps_dapp.Notice.Mask.{mask_ip}
use eps_dapp.Notice.Access.{FirstAccessResult, record_first_access}
use eps_dapp.Notice.{IsFirstView, record-Viewed}
use eps_dapp.Pdf.Wrap.{Widths}
use eps_dapp.Pdf.Writer.{
  Drawing, LineWriter, Color, new_writer, draw, down, labelled, section, field, link, gap, footer,
}
use eps_dapp.Pdf.Render.{
  PdfLibrary, CertificateData, is_addendum_of, data_from, certificate_of, certificate_data,
  title_section, case_section, document_section, proof_section, optional_link, view_section,
  topic_section, token_section, certificate_page, encode_all, render_certificate_pdf, render_found,
  generate_certificate_pdf,
}

-- The text is one of those that are drawn.
abbrev pub shows : Text → List Drawing → Bool
shows text = any (λ (d : Drawing). text_eq d.text text)

-- Nothing that is drawn goes.
abbrev Adds : (LineWriter → LineWriter) → Type 0
Adds f = (text : Text) (w : LineWriter) → shows text w.drawn ≡ true → shows text (f w).drawn ≡ true

draw-Adds :
    (line : Text) (x size : ℕ) (is_bold : Bool) (color : Color)
    → Adds (draw line x size is_bold color)
draw-Adds line x size is_bold color text w e = any-append _ w.drawn _ e

labelled-Adds : (label value : Text) (color : Color) → Adds (labelled label value color)
labelled-Adds label value color text w e =
    draw-Adds value 18600 9 false color text _
      (draw-Adds (label ++ codes ":") 5600 9 true Color.grey text (down 1600 w) e)

field-Adds : (label value : Text) → Adds (field label value)
unfolding field
field-Adds label value = labelled-Adds label value Color.black

field_shown : (label value : Text) (w : LineWriter) → shows value (field label value w).drawn ≡ true
unfolding field
field_shown label value w =
    any-append_last (λ (d : Drawing). text_eq d.text value)
      (draw (label ++ codes ":") 5600 9 true Color.grey (down 1600 w)).drawn _ (text_eq_refl value)

section-Adds : (title : Text) → Adds (section title)
unfolding section
section-Adds title text w = draw-Adds title 5600 12 true Color.black text (down 1400 w)

optional-Adds : (label url : Text) → Adds (optional_link label url)
unfolding link
optional-Adds label url text w e = elim (Bool-cases (is_empty url)) [
  | inl k ↦ simp k e
  | inr k ↦ simp k (labelled-Adds label url Color.blue text w e)
]

module _ (data_of : CertificateData) where
  topic-Adds : Adds (topic_section data_of)
  unfolding topic_section gap
  topic-Adds text w e = elim (Bool-cases (is_empty (or_else data_of.hcs_topic_id []))) [
    | inl k ↦ simp k e
    | inr k ↦ simp k (
        optional-Adds _ _ text _ (
          field-Adds _ _ text _
            (field-Adds _ _ text _ (field-Adds _ _ text _ (section-Adds _ text (gap w) e)))))
  ]

  token-Adds : Adds (token_section data_of)
  unfolding token_section gap
  token-Adds text w e = elim (Bool-cases (is_empty (or_else data_of.hts_token_id []))) [
    | inl k ↦ simp k e
    | inr k ↦ simp k (
        optional-Adds _ _ text _
          (field-Adds _ _ text _ (field-Adds _ _ text _ (section-Adds _ text (gap w) e))))
  ]

  view_shown :
      (at : ℕ) (ip : Text) (w : LineWriter)
      → data_of.first_viewed_at ≡ some at
      → data_of.first_viewer_ip ≡ some ip
      → (shows (utc_text at) (view_section data_of w).drawn ≡ true)
        × (shows ip (view_section data_of w).drawn ≡ true)
  unfolding view_section
  view_shown at ip w e f =
      simp (e, f)
        (
          field-Adds _ _ (utc_text at) _ (field_shown (codes "Viewed at (UTC)") (utc_text at) _),
          field_shown (codes "Viewer IP (masked)") ip _,
        )

  -- What follows the view on the page.
  rest-Adds :
      (foot : Text) → Adds (λ w. footer foot (token_section data_of (topic_section data_of w)))
  unfolding footer
  rest-Adds foot text w e =
      any-append (λ (d : Drawing). text_eq d.text text)
        (token_section data_of (topic_section data_of w)).drawn _
        (token-Adds text (topic_section data_of w) (topic-Adds text w e))

  page_shows :
      (widths : Widths) (now at : ℕ) (ip : Text)
      → data_of.first_viewed_at ≡ some at
      → data_of.first_viewer_ip ≡ some ip
      → (shows (utc_text at) (certificate_page widths data_of now) ≡ true)
        × (shows ip (certificate_page widths data_of now) ≡ true)
  unfolding certificate_page
  page_shows widths now at ip e f =
      let before : LineWriter =
        proof_section data_of
          (document_section data_of (case_section data_of (title_section widths new_writer))) in
      let (time, place) = view_shown at ip before e f in
      let foot = codes "Certificate generated " ++ utc_text now in
      (
        rest-Adds foot (utc_text at) (view_section data_of before) time,
        rest-Adds foot ip (view_section data_of before) place,
      )

-- What the query finds of a notice whose first view has just been written.
first_view_data :
    (env : Env) (notice ip agent : Text) (at : ℕ) (before after : Db)
    → IsFirstView env notice ip agent at before after
    → (data_of : CertificateData) × (certificate_data notice after ≡ some data_of)
      × (data_of.first_viewed_at ≡ some at)
      × (data_of.first_viewer_ip ≡ some (mask_ip ip))
unfolding certificate_data
first_view_data env notice ip agent at before after first =
    let (r, found) = find-some (has_request_id notice) before.requests first.known in
    let addendum : CertificateAddendum = record {
      id = first.addendum_id;
      notice_id = notice;
      viewed_at = at;
      viewer_ip = mask_ip ip;
    } in
    let same_id =
      text_eq→eq r.id notice (find_meets (has_request_id notice) before.requests r found) in
    let written : find (is_addendum_of r.id) after.addenda ≡ some addendum =
      subst (λ id. find (is_addendum_of id) after.addenda ≡ some addendum) (sym same_id)
        (ap (λ (db : Db). find (is_addendum_of notice) db.addenda) first.written
          ∙ find-append_last (is_addendum_of notice) before.addenda addendum
              (find-none (is_addendum_of notice) before.addenda first.first_addendum)
              (text_eq_refl notice)) in
    (
      data_from r (some addendum),
      ap (λ (db : Db). certificate_of after (find (has_request_id notice) db.requests))
            first.written
          ∙ ap (certificate_of after) found
          ∙ ap (λ a. some (data_from r a)) written,
      refl,
      refl,
    )

module _ (env : Env) (lib : PdfLibrary) where
  render_saves :
      (data_of : CertificateData) (w : World) (bytes : List ℕ)
      → (render_certificate_pdf env lib data_of w).0 ≡ ok bytes
      → lib.save w.tick (certificate_page lib.widths data_of (env.now w.tick)) ≡ ok bytes
  unfolding render_certificate_pdf
  render_saves data_of w bytes e =
      elim (Result-cases
        (encode_all env lib (certificate_page lib.widths data_of (env.now w.tick)))) [
          | inl (a, k) ↦ ground (arith, e, k)
          | inr other ↦ absurd (ground (arith, e, other))
        ]

  generate_saves :
      (notice : Text) (data_of : CertificateData) (w : World) (bytes : List ℕ)
      → certificate_data notice w.db ≡ some data_of
      → (generate_certificate_pdf env lib notice w).0 ≡ ok bytes
      → lib.save (w.tick + 1) (certificate_page lib.widths data_of (env.now (w.tick + 1)))
        ≡ ok bytes
  unfolding generate_certificate_pdf render_found
  generate_saves notice data_of w bytes found e = elim (Result-cases (env.answers w.tick)) [
    | inl (a, k) ↦
        render_saves data_of (record w { tick = w.tick + 1 }) bytes (ground (arith, e, k, found))
    | inr other ↦ absurd (ground (arith, e, other))
  ]

  -- The certificate that is generated after the first view of a notice, from the tables that the view
  -- left, shows the time of the view and the masked address of the viewer.
  pub certificate_shows_view :
      (notice ip agent : Text) (w later : World) (r : FirstAccessResult) (bytes : List ℕ)
      → (record_first_access env notice ip agent w).0 ≡ ok r
      → r.is_first_access ≡ true
      → later.db ≡ (record_first_access env notice ip agent w).1.db
      → (generate_certificate_pdf env lib notice later).0 ≡ ok bytes
      → (t : ℕ) × (page : List Drawing) × (lib.save t page ≡ ok bytes)
        × (shows (utc_text r.viewed_at) page ≡ true)
        × (shows (mask_ip ip) page ≡ true)
  certificate_shows_view notice ip agent w later r bytes viewed is_first same e =
      elim (record-Viewed env notice ip agent w r viewed) [
        | inl (_, first) ↦
            let (data_of, found, time, place) =
              first_view_data env notice ip agent r.viewed_at w.db
                (record_first_access env notice ip agent w).1.db first in
            let (shows_time, shows_place) =
              page_shows data_of lib.widths (env.now (later.tick + 1)) r.viewed_at (mask_ip ip) time
                place in
            (
              later.tick + 1,
              certificate_page lib.widths data_of (env.now (later.tick + 1)),
              generate_saves notice data_of later bytes (ap (certificate_data notice) same ∙ found)
                  e,
              shows_time,
              shows_place,
            )
        | inr (again, _, _) ↦ absurd (ground (arith, again, is_first))
      ]
