-- ===== src/Pdf/Bounded.antt =====
-- lib/certificate-pdf.ts: the certificate ends on its page.
use eps_dapp.Base.{
  ℕ, ◌+◌, ◌-◌, ◌*◌, ◌≤◌, ◌<◌, ◌≡◌, refl, Bool, true, false, not, ◌&&◌, Option, none, some, List, [],
  ◌∷◌, arith, All, Text, is_empty, ltb, codes, length, join_with, ap, Bool-cases, inl, inr, or_else,
}
use eps_dapp.Pdf.Wrap.{Widths, wrap, wrap_from, split_runs}
use eps_dapp.Pdf.Wrapped.{start_step, wrap_from-few}
use eps_dapp.Pdf.Plain.{IsPlain, PlainData}
use eps_dapp.Pdf.PlainPage.{AllPlain, page-AllPlain}
use eps_dapp.Pdf.Writer.{
  Drawing, a4_width, a4_height, margin, new_writer, heading, section, link, write_lines, paragraph,
  gap, footer,
}
use eps_dapp.Pdf.Render.{
  CertificateData, disclaimer, proof_fields, view_fields, optional_link, case_section,
  document_section, proof_section, view_section, topic_section, token_section, title_section,
  certificate_page,
}
use eps_dapp.Pdf.Placed.{
  Above, Above-more, Above-append, Takes, Takes-then, Takes-more, none-Takes, heading-Takes,
  section-Takes, field_then, link-Takes, gap-Takes, lines-Takes,
}

module _ (data_of : CertificateData) where
  case-Takes : Takes 10600 (case_section data_of)
  unfolding case_section
  case-Takes =
      Takes-then 9800 800 _ gap
        (field_then 8200 _ _ _ (
          field_then 6600 _ _ _ (
            field_then 5000 _ _ _ (
              field_then 3400 _ _ _
                (field_then 1800 (section (codes "Case")) _ _ (section-Takes (codes "Case")))))))
        gap-Takes

  document-Takes : Takes 5800 (document_section data_of)
  unfolding document_section
  document-Takes =
      Takes-then 5000 800 _ gap
        (field_then 3400 _ _ _ (
          field_then 1800 (section (codes "Served document")) _ _
            (section-Takes (codes "Served document"))))
        gap-Takes

  fields-Takes : (signature : Text) → Takes 6400 (proof_fields data_of signature)
  fields-Takes signature w above = elim (Bool-cases (is_empty signature)) [
    | inl e ↦
        simp e (Takes-more 1600 6400 _ (omega arith) (field_then 0 (λ w. w) _ _ none-Takes) w above)
    | inr e ↦ simp e (
        field_then 4800 _ _ _
          (field_then 3200 _ _ _ (
            Takes-then 1600 1600 _ (link _ _) (field_then 0 (λ w. w) _ _ none-Takes)
              (link-Takes _ _)))
          w above)
  ]

  proof-Takes : Takes 9000 (proof_section data_of)
  unfolding proof_section
  proof-Takes =
      Takes-then 8200 800 _ gap
        (Takes-then 1800 6400 (section (codes "On-chain proof (Solana devnet)"))
          (proof_fields data_of (or_else data_of.tx_signature []))
          (section-Takes (codes "On-chain proof (Solana devnet)"))
          (fields-Takes (or_else data_of.tx_signature [])))
        gap-Takes

  view_fields-Takes : (at : Option ℕ) → Takes 3200 (view_fields data_of at)
  view_fields-Takes none =
      Takes-more 1600 3200 _ (omega arith) (field_then 0 (λ w. w) _ _ none-Takes)
  view_fields-Takes (some t) = field_then 1600 _ _ _ (field_then 0 (λ w. w) _ _ none-Takes)

  view-Takes : Takes 5000 (view_section data_of)
  unfolding view_section
  view-Takes =
      Takes-then 1800 3200 (section (codes "First viewed"))
        (view_fields data_of data_of.first_viewed_at) (section-Takes (codes "First viewed"))
        (view_fields-Takes data_of.first_viewed_at)

optional-Takes : (label url : Text) → Takes 1600 (optional_link label url)
optional-Takes label url w above = elim (Bool-cases (is_empty url)) [
  | inl e ↦ simp e (Takes-more 0 1600 _ (omega arith) none-Takes w above)
  | inr e ↦ simp e (link-Takes label url w above)
]

module _ (data_of : CertificateData) where
  topic-Takes : Takes 9000 (topic_section data_of)
  unfolding topic_section
  topic-Takes w above = elim (Bool-cases (is_empty (or_else data_of.hcs_topic_id []))) [
    | inl e ↦ simp e (Takes-more 0 9000 _ (omega arith) none-Takes w above)
    | inr e ↦ simp e (
        Takes-then 7400 1600 _ (optional_link _ _)
          (field_then 5800 _ _ _ (
            field_then 4200 _ _ _ (
              field_then 2600 _ _ _
                (Takes-then 800 1800 gap (section _) gap-Takes (section-Takes _)))))
          (optional-Takes _ _) w above)
  ]

  token-Takes : Takes 7400 (token_section data_of)
  unfolding token_section
  token-Takes w above = elim (Bool-cases (is_empty (or_else data_of.hts_token_id []))) [
    | inl e ↦ simp e (Takes-more 0 7400 _ (omega arith) none-Takes w above)
    | inr e ↦ simp e (
        Takes-then 5800 1600 _ (optional_link _ _)
          (field_then 4200 _ _ _ (
            field_then 2600 _ _ _
              (Takes-then 800 1800 gap (section _) gap-Takes (section-Takes _))))
          (optional-Takes _ _) w above)
  ]

-- A font in which 48 units fit the line, at the size of the page's text.
pub record FitsLine (widths : Widths) : Type 0 where
  pub short_fits : (line : Text) → length line ≤ 48 → widths false line 9 ≤ a4_width - 2 * margin

abbrev is_short_word : Text → Bool
is_short_word w = not (is_empty w) && ltb (length w) 13

abbrev all_short : List Text → Bool
all_short [] = true
all_short (w ∷ words) = is_short_word w && all_short words

disclaimer_run : all_short (split_runs false disclaimer) ≡ true
unfolding split_runs
disclaimer_run = refl

length-disclaimer : length (join_with b' ' (split_runs false disclaimer)) ≡ 147
unfolding split_runs join_with
length-disclaimer = refl

all_short-All :
    (words : List Text)
    → all_short words ≡ true
    → All (λ w. (is_empty w ≡ false) × (length w ≤ 12)) words
all_short-All [] e = tt
all_short-All (w ∷ words) e = (ground (arith, e), all_short-All words (ground (arith, e)))

lines_few :
    (too_wide : Text → Bool) (words : List Text)
    → ((line : Text) → too_wide line ≡ true → 48 < length line)
    → all_short words ≡ true
    → 37 * length (wrap_from too_wide [] words) ≤ length (join_with b' ' words) + 37
lines_few too_wide [] wide e = unfold wrap_from join_with in omega arith
lines_few too_wide (word ∷ words) wide e =
    let (k, short) = all_short-All (word ∷ words) e in
    omega (
      arith,
      ap length (start_step too_wide word words),
      wrap_from-few too_wide word words wide k.0 short,
    )

five_lines : (n m : ℕ) → 37 * n ≤ m + 37 → m ≡ 147 → n ≤ 5
five_lines n m le e = omega arith

five_heights : (n : ℕ) → n ≤ 5 → 3400 + 1300 * n ≤ 9900
five_heights n le = omega arith

disclaimer_lines :
    (widths : Widths)
    → FitsLine widths
    → length (wrap widths disclaimer 9 (a4_width - 2 * margin)) ≤ 5
unfolding wrap
disclaimer_lines widths law =
    five_lines _ _
      (lines_few (λ line. ltb 48328 (widths false line 9)) (split_runs false disclaimer)
        (λ line wide. ground (arith, law.short_fits line)) disclaimer_run)
      length-disclaimer

title-Takes : (widths : Widths) → FitsLine widths → Takes 10700 (title_section widths)
unfolding title_section paragraph
title-Takes widths law =
    Takes-then 9900 800 _ gap
      (Takes-more (3400 + 1300 * length (wrap widths disclaimer 9 (a4_width - 2 * margin))) 9900 _
        (five_heights _ (disclaimer_lines widths law))
        (Takes-then 3400 (1300 * length (wrap widths disclaimer 9 (a4_width - 2 * margin)))
          (λ w. gap (heading (codes "EPS NOTICE CERTIFICATE") w))
          (write_lines (wrap widths disclaimer 9 (a4_width - 2 * margin)))
          (Takes-then 2600 800 (heading (codes "EPS NOTICE CERTIFICATE")) gap
            (heading-Takes (codes "EPS NOTICE CERTIFICATE")) gap-Takes)
          (lines-Takes (wrap widths disclaimer 9 (a4_width - 2 * margin)))))
      gap-Takes

depths_bounded :
    (widths : Widths) (data_of : CertificateData) (now : ℕ)
    → FitsLine widths
    → Above (a4_height - margin) (certificate_page widths data_of now)
unfolding certificate_page footer
depths_bounded widths data_of now law =
    let (le, above) =
      Takes-then 50100 7400 _ (token_section data_of)
        (Takes-then 41100 9000 _ (topic_section data_of)
          (Takes-then 36100 5000 _ (view_section data_of)
            (Takes-then 27100 9000 _ (proof_section data_of)
              (Takes-then 21300 5800 _ (document_section data_of)
                (Takes-then 10700 10600 (title_section widths) (case_section data_of)
                  (title-Takes widths law) (case-Takes data_of))
                (document-Takes data_of))
              (proof-Takes data_of))
            (view-Takes data_of))
          (topic-Takes data_of))
        (token-Takes data_of) new_writer tt in
    Above-append (a4_height - margin) _ _
      (Above-more _ (a4_height - margin) _ (omega (arith, le)) above) (omega arith)

-- How far below its first line `drawText` goes with a text: a text without line break has one line.
pub record OneLine (further : Text → ℕ) : Type 0 where
  pub one_line : (text : Text) → IsPlain text → further text ≡ 0

further_bounded :
    (further : Text → ℕ) (n : ℕ) (drawn : List Drawing)
    → OneLine further
    → Above n drawn
    → AllPlain drawn
    → All (λ d. d.depth + further d.text ≤ n) drawn
further_bounded further n [] law k h = tt
further_bounded further n (d ∷ drawn) law (le, k) (p, h) =
    (omega (arith, law.one_line d.text p), further_bounded further n drawn law k h)

-- Nothing on a certificate is drawn below the foot of its page, if no column of the notice has a
-- control unit, such as a line break: no line of any text, up to its last one, is lower. In the font,
-- 48 units fit the line, and a text without control units is drawn as one line.
pub page_bounded :
    (widths : Widths) (further : Text → ℕ) (data_of : CertificateData) (now : ℕ)
    → FitsLine widths
    → OneLine further
    → PlainData data_of
    → All (λ d. d.depth + further d.text ≤ a4_height - margin) (certificate_page widths data_of now)
page_bounded widths further data_of now law one plain =
    further_bounded further (a4_height - margin) (certificate_page widths data_of now) one
      (depths_bounded widths data_of now law) (page-AllPlain widths data_of now plain)
