-- ===== src/Pdf/PlainPage.antt =====
-- lib/certificate-pdf.ts: `LineWriter` draws no line break, where the notice has none.
use eps_dapp.Base.{
  ℕ, refl, false, Option, none, some, List, [], ◌∷◌, ◌++◌, All, Text, is_empty, ltb, codes,
  Bool-cases, inl, inr, or_else,
}
use eps_dapp.Pdf.Plain.{
  IsPlain, PlainData, lit, append-IsPlain, or_else-IsPlain, number-IsPlain, utc-IsPlain,
  time-IsPlain, wrap_from-Plain, all_plain-All, disclaimer_run,
}
use eps_dapp.Pdf.Wrap.{Widths, wrap, split_runs}
use eps_dapp.Pdf.Writer.{
  Drawing, LineWriter, Color, new_writer, heading, section, field, link, labelled, write_lines,
  paragraph, gap, footer,
}
use eps_dapp.Pdf.Render.{
  CertificateData, disclaimer, proof_fields, view_fields, optional_link, case_section,
  document_section, proof_section, view_section, topic_section, token_section, title_section,
  certificate_page,
}

abbrev pub AllPlain : List Drawing → Type 0
AllPlain drawn = All (λ (d : Drawing). IsPlain d.text) drawn

-- What is drawn so far is plain.
record SoFar (w : LineWriter) : Type 0 where
  texts : AllPlain w.drawn

AllPlain-append :
    (drawn : List Drawing) (d : Drawing)
    → AllPlain drawn
    → IsPlain d.text
    → AllPlain (drawn ++ d ∷ [])
AllPlain-append [] d k h = (h, tt)
AllPlain-append (e ∷ drawn) d (p, k) h = (p, AllPlain-append drawn d k h)

heading-SoFar : {w : LineWriter} (text : Text) → IsPlain text → SoFar w → SoFar (heading text w)
unfolding heading
heading-SoFar {w = w} text h k = record { texts = AllPlain-append w.drawn _ k.texts h }

section-SoFar : {w : LineWriter} (text : Text) → IsPlain text → SoFar w → SoFar (section text w)
unfolding section
section-SoFar {w = w} text h k = record { texts = AllPlain-append w.drawn _ k.texts h }

gap-SoFar : {w : LineWriter} → SoFar w → SoFar (gap w)
unfolding gap
gap-SoFar k = record { texts = k.texts }

labelled-SoFar :
    (label value : Text) (color : Color) (w : LineWriter)
    → IsPlain label
    → IsPlain value
    → SoFar w
    → SoFar (labelled label value color w)
labelled-SoFar label value color w l v k = record {
  texts =
      AllPlain-append (w.drawn ++ _ ∷ []) _
        (AllPlain-append w.drawn _ k.texts (append-IsPlain l (lit refl))) v;
}

field-SoFar :
    {label value : Text} {w : LineWriter}
    → IsPlain label
    → IsPlain value
    → SoFar w
    → SoFar (field label value w)
unfolding field
field-SoFar {label = label} {value = value} {w = w} = labelled-SoFar label value Color.black w

link-SoFar :
    {label value : Text} {w : LineWriter}
    → IsPlain label
    → IsPlain value
    → SoFar w
    → SoFar (link label value w)
unfolding link
link-SoFar {label = label} {value = value} {w = w} = labelled-SoFar label value Color.blue w

lines-SoFar :
    (lines : List Text) (w : LineWriter)
    → All (λ l. IsPlain l) lines
    → SoFar w
    → SoFar (write_lines lines w)
unfolding write_lines
lines-SoFar [] w h k = k
lines-SoFar (line ∷ lines) w (p, h) k =
    lines-SoFar lines _ h (record { texts = AllPlain-append w.drawn _ k.texts p })

title-SoFar : (widths : Widths) {w : LineWriter} → SoFar w → SoFar (title_section widths w)
unfolding title_section paragraph wrap
title-SoFar widths k = gap-SoFar (
    lines-SoFar _ _
      (wrap_from-Plain (λ line. ltb 48328 (widths false line 9)) [] (split_runs false disclaimer)
        (lit refl) (all_plain-All (split_runs false disclaimer) disclaimer_run))
      (gap-SoFar (heading-SoFar (codes "EPS NOTICE CERTIFICATE") (lit refl) k)))

optional-SoFar :
    {label url : Text} {w : LineWriter}
    → IsPlain label
    → IsPlain url
    → SoFar w
    → SoFar (optional_link label url w)
optional-SoFar {label = label} {url = url} l p k = elim (Bool-cases (is_empty url)) [
  | inl e ↦ simp e k
  | inr e ↦ simp e (link-SoFar l p k)
]

module _ (data_of : CertificateData) (h : PlainData data_of) {w : LineWriter} (k : SoFar w) where
  case-SoFar : SoFar (case_section data_of w)
  unfolding case_section
  case-SoFar = gap-SoFar (
      field-SoFar (lit refl) h.wallet (
        field-SoFar (lit refl) h.defendant (
          field-SoFar (lit refl) h.plaintiff (
            field-SoFar (lit refl) h.caption (
              field-SoFar (lit refl) (or_else-IsPlain data_of.notice_token h.token (lit refl))
                (section-SoFar (codes "Case") (lit refl) k))))))

  document-SoFar : SoFar (document_section data_of w)
  unfolding document_section
  document-SoFar = gap-SoFar (
      field-SoFar (lit refl) (or_else-IsPlain data_of.document_sha256 h.sha256 (lit refl)) (
        field-SoFar (lit refl)
          (append-IsPlain {t = codes ".pdf"}
            (append-IsPlain {s = codes "notice-"} (lit refl)
              (or_else-IsPlain data_of.notice_token {t = codes "document"} h.token (lit refl)))
            (lit refl))
          (section-SoFar (codes "Served document") (lit refl) k)))

  fields-SoFar : (signature : Text) → IsPlain signature → SoFar (proof_fields data_of signature w)
  fields-SoFar signature p = elim (Bool-cases (is_empty signature)) [
    | inl e ↦ simp e (field-SoFar (lit refl) (lit refl) k)
    | inr e ↦ simp e (
        field-SoFar (lit refl) (time-IsPlain data_of.block_time) (
          field-SoFar (lit refl) (number-IsPlain data_of.slot) (
            link-SoFar (lit refl)
              (append-IsPlain {t = codes "?cluster=devnet"}
                (append-IsPlain {s = codes "https://solscan.io/tx/"} (lit refl) p) (lit refl))
              (field-SoFar (lit refl) p k))))
  ]

  view_fields-SoFar : (at : Option ℕ) → SoFar (view_fields data_of at w)
  view_fields-SoFar none = field-SoFar (lit refl) (lit refl) k
  view_fields-SoFar (some t) =
      field-SoFar (lit refl) (or_else-IsPlain data_of.first_viewer_ip h.viewer_ip (lit refl))
        (field-SoFar (lit refl) (utc-IsPlain t) k)

  topic-SoFar : SoFar (topic_section data_of w)
  unfolding topic_section
  topic-SoFar = elim (Bool-cases (is_empty (or_else data_of.hcs_topic_id []))) [
    | inl e ↦ simp e k
    | inr e ↦ simp e (
        optional-SoFar (lit refl) h.topic_url (
          field-SoFar (lit refl) (or_else-IsPlain data_of.hcs_consensus_time h.consensus (lit refl))
            (field-SoFar (lit refl) (number-IsPlain data_of.hcs_sequence_number)
              (field-SoFar (lit refl) h.topic (section-SoFar _ (lit refl) (gap-SoFar k))))))
  ]

  token-SoFar : SoFar (token_section data_of w)
  unfolding token_section
  token-SoFar = elim (Bool-cases (is_empty (or_else data_of.hts_token_id []))) [
    | inl e ↦ simp e k
    | inr e ↦ simp e (
        optional-SoFar (lit refl) h.nft_url (
          field-SoFar (lit refl) (number-IsPlain data_of.hts_serial_number)
            (field-SoFar (lit refl) h.nft (section-SoFar _ (lit refl) (gap-SoFar k)))))
  ]

module _ (data_of : CertificateData) (h : PlainData data_of) {w : LineWriter} (k : SoFar w) where
  proof-SoFar : SoFar (proof_section data_of w)
  unfolding proof_section
  proof-SoFar = gap-SoFar (
      fields-SoFar data_of h (section-SoFar _ (lit refl) k) (or_else data_of.tx_signature [])
        h.signature)

  view-SoFar : SoFar (view_section data_of w)
  unfolding view_section
  view-SoFar = view_fields-SoFar data_of h (section-SoFar _ (lit refl) k) data_of.first_viewed_at

pub page-AllPlain :
    (widths : Widths) (data_of : CertificateData) (now : ℕ)
    → PlainData data_of
    → AllPlain (certificate_page widths data_of now)
unfolding certificate_page footer
page-AllPlain widths data_of now h =
    AllPlain-append _ _
      (token-SoFar data_of h (
        topic-SoFar data_of h (
          view-SoFar data_of h (
            proof-SoFar data_of h (
              document-SoFar data_of h (
                case-SoFar data_of h
                  (title-SoFar widths {w = new_writer} (record { texts = tt })))))))).texts
      (append-IsPlain {s = codes "Certificate generated "} (lit refl) (utc-IsPlain now))
