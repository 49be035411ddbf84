-- ===== src/Certificate/Reused.antt =====
-- lib/certificate-store.ts: a certificate that is stored is given again.
use eps_dapp.Base.{
  ℕ, ◌+◌, ◌≡◌, refl, ap, subst, ◌∙◌, true, Option, none, some, List, arith, Text, any, find,
  Option-cases, inl, inr, text_eq_refl, find-append_last, find-missing,
}
use eps_dapp.Db.{Db, CertificatePdf, certificates_table}
use eps_dapp.Effects.{
  Env, World, Result, ok, ◌>>=◌, ◌>>◌, pure, find_unique, Result-cases, >>=-inv, catch-inv,
}
use eps_dapp.Pdf.{generate-keeps}
use eps_dapp.Pdf.Render.{PdfLibrary, generate_certificate_pdf}
use eps_dapp.Certificate.{
  Base64, is_certificate_of, certificate_row, create_certificate, stored_bytes, keep_certificate,
  certificate_or_create, get_or_create_certificate_pdf,
}

-- Base64 reads back what it wrote.
pub record ReadsBase64 (base64 : Base64) : Type 0 where
  pub base64_round : (bytes : List ℕ) → base64.from_base64 (base64.to_base64 bytes) ≡ bytes

module _ (env : Env) (lib : PdfLibrary) (base64 : Base64) (notice : Text) where
  -- The tables hold a certificate of the notice with these bytes.
  abbrev Holds : List ℕ → Db → Type 0
  Holds bytes db =
      (row : CertificatePdf) × (find (is_certificate_of notice) db.certificates ≡ some row)
      × (base64.from_base64 row.pdf_base64 ≡ bytes)

  create-Holds :
      (bytes : List ℕ) (w : World) (row : CertificatePdf)
      → ReadsBase64 base64
      → find (is_certificate_of notice) w.db.certificates ≡ none
      → (create_certificate env lib base64 notice (base64.to_base64 bytes) w).0 ≡ ok row
      → Holds bytes (create_certificate env lib base64 notice (base64.to_base64 bytes) w).1.db
  unfolding create_certificate
  create-Holds bytes w row law missing e = (
    certificate_row (env.fresh_id w.tick) notice (base64.to_base64 bytes),
    ground (
      arith,
      find-append_last (is_certificate_of notice) w.db.certificates
          (certificate_row (env.fresh_id w.tick) notice (base64.to_base64 bytes)) missing
          (text_eq_refl notice),
    ),
    law.base64_round bytes,
  )

  -- What an action that gives a certificate leaves, if the tables then hold one.
  abbrev Gives : List ℕ → Result (List ℕ) × World → Type 0
  Gives bytes (answer, w') =
      answer ≡ ok bytes
      → any (is_certificate_of notice) w'.db.certificates ≡ true
      → Holds bytes w'.db

  winner-Gives :
      (bytes out : List ℕ) (w : World)
      → Gives out (
          (find_unique env certificates_table (is_certificate_of notice) >>= λ row.
          pure (stored_bytes env lib base64 notice bytes row))
            w)
  winner-Gives bytes out w = elim (Result-cases (env.answers w.tick)) [
    | inl (a, k) ↦ elim (Option-cases (find (is_certificate_of notice) w.db.certificates)) [
      | inl n ↦ λ e seen.
          absurd (ground (arith, k, n, find-missing (is_certificate_of notice) w.db.certificates n))
      | inr (row, f) ↦ λ e seen. (row, ground (arith, k, f), ground (arith, k, f))
    ]
    | inr other ↦ λ e seen. absurd (ground (arith, other))
  ]

  keep-Gives :
      (bytes out : List ℕ) (w : World)
      → ReadsBase64 base64
      → find (is_certificate_of notice) w.db.certificates ≡ none
      → Gives out (keep_certificate env lib base64 notice bytes w)
  unfolding keep_certificate
  keep-Gives bytes out w law missing =
      catch-inv (Gives out)
        (create_certificate env lib base64 notice (base64.to_base64 bytes) >> pure bytes)
        (λ e. find_unique env certificates_table (is_certificate_of notice) >>= λ row.
          pure (stored_bytes env lib base64 notice bytes row))
        w
        (λ a k e seen.
          elim (Result-cases
            (create_certificate env lib base64 notice (base64.to_base64 bytes) w).0) [
              | inl (row, c) ↦
                  let (held, found, same) = create-Holds bytes w row law missing c in
                  (held, ground (arith, c, found), ground (arith, c, k, same))
              | inr other ↦ absurd (ground (arith, other))
            ])
        (λ e k.
          winner-Gives bytes out
            ((create_certificate env lib base64 notice (base64.to_base64 bytes) >> pure bytes) w).1)
        (λ k e. absurd (ground arith))

  -- With a certificate in the tables, its bytes are given and nothing changes.
  again_lem :
      (row : CertificatePdf) (w : World) (bytes : List ℕ)
      → find (is_certificate_of notice) w.db.certificates ≡ some row
      → (get_or_create_certificate_pdf env lib base64 notice w).0 ≡ ok bytes
      → (bytes ≡ base64.from_base64 row.pdf_base64)
        × ((get_or_create_certificate_pdf env lib base64 notice w).1.db ≡ w.db)
  unfolding get_or_create_certificate_pdf certificate_or_create
  again_lem row w bytes found e = ground (arith, found)

  found-Gives :
      (found : Option CertificatePdf) (bytes : List ℕ) (w : World)
      → ReadsBase64 base64
      → find (is_certificate_of notice) w.db.certificates ≡ found
      → Gives bytes (certificate_or_create env lib base64 notice found w)
  unfolding certificate_or_create
  found-Gives (some row) bytes w law is = λ e seen. (row, is, ground arith)
  found-Gives none bytes w law is =
      >>=-inv (Gives bytes) (generate_certificate_pdf env lib notice) w
        (keep_certificate env lib base64 notice)
        (λ made k. keep-Gives made bytes (generate_certificate_pdf env lib notice w).1 law (
          ap (λ (db : Db). find (is_certificate_of notice) db.certificates)
            (generate-keeps env lib notice w)
          ∙ is))
        (λ r f k e. absurd (ground (arith, f)))

  first-Gives :
      (bytes : List ℕ) (w : World)
      → ReadsBase64 base64
      → Gives bytes (get_or_create_certificate_pdf env lib base64 notice w)
  unfolding get_or_create_certificate_pdf
  first-Gives bytes w law = elim (Result-cases (env.answers w.tick)) [
    | inl (a, k) ↦
        subst (Gives bytes)
          {x = certificate_or_create env lib base64 notice
            (find (is_certificate_of notice) w.db.certificates) (record w { tick = w.tick + 1 })}
          {y = get_or_create_certificate_pdf env lib base64 notice w} (ground (arith, k))
          (found-Gives (find (is_certificate_of notice) w.db.certificates) bytes
            (record w { tick = w.tick + 1 }) law refl)
    | inr other ↦ λ e seen. absurd (ground (arith, other))
  ]

  -- A certificate that was given, and is in the tables, is given again: a later request, on the
  -- same tables, gives the same bytes if it gives any, and changes no table. Base64 reads back what
  -- it wrote.
  pub certificate_reused :
      (bytes again : List ℕ) (w later : World)
      → ReadsBase64 base64
      → (get_or_create_certificate_pdf env lib base64 notice w).0 ≡ ok bytes
      → any
          (is_certificate_of notice)
          (get_or_create_certificate_pdf env lib base64 notice w).1.db.certificates
        ≡ true
      → later.db ≡ (get_or_create_certificate_pdf env lib base64 notice w).1.db
      → (get_or_create_certificate_pdf env lib base64 notice later).0 ≡ ok again
      → (again ≡ bytes)
        × ((get_or_create_certificate_pdf env lib base64 notice later).1.db ≡ later.db)
  certificate_reused bytes again w later law e seen same f =
      let (row, found, read) = first-Gives bytes w law e seen in
      let (given, kept) =
        again_lem row later again
          (ap (λ (db : Db). find (is_certificate_of notice) db.certificates) same ∙ found) f in
      (given ∙ read, kept)
