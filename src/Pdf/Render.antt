-- ===== src/Pdf/Render.antt =====
-- lib/certificate-pdf.ts: `renderCertificatePdf` and `generateCertificatePdf`. What pdf-lib does with
-- a text is a parameter: it throws for one that its fonts cannot encode. Nothing outside of the page
-- is changed before it is saved, so that the texts are encoded in their order when it is.
use eps_dapp.Base.{
  ℕ, ◌+◌, Bool, Option, none, some, or_else, List, [], ◌∷◌, ◌++◌, find, is_empty, if◌then◌else◌,
  Text, codes, text_eq,
}
use eps_dapp.Calendar.{utc_text}
use eps_dapp.Printing.{print_nat}
use eps_dapp.Db.{Db, ServiceRequest, CertificateAddendum}
use eps_dapp.Effects.{Action, Env, Result, ok, err, crashed, external, ◌>>=◌, throw, statement}
use eps_dapp.Failure.{has_request_id}
use eps_dapp.Pdf.Wrap.{Widths}
use eps_dapp.Pdf.Writer.{
  Drawing, LineWriter, new_writer, heading, section, field, link, paragraph, gap, footer,
}

pub record CertificateData : Type 0 where
  pub case_caption : Text
  pub plaintiff_name : Text
  pub defendant_name : Text
  pub recipient_wallet : Text
  pub document_sha256 : Option Text
  pub tx_signature : Option Text
  pub slot : Option ℕ
  pub block_time : Option ℕ
  pub notice_token : Option Text
  pub first_viewed_at : Option ℕ
  pub first_viewer_ip : Option Text
  pub hcs_topic_id : Option Text
  pub hcs_sequence_number : Option ℕ
  pub hcs_consensus_time : Option Text
  pub hcs_mirror_url : Option Text
  pub hts_token_id : Option Text
  pub hts_serial_number : Option ℕ
  pub hts_mirror_url : Option Text

abbrev pub solscan_url : Text → Text
solscan_url signature = codes "https://solscan.io/tx/" ++ signature ++ codes "?cluster=devnet"

-- The dash for what is missing.
abbrev pub dash : Text
dash = 0x2014 ∷ []

abbrev pub number_or_dash : Option ℕ → Text
number_or_dash none = dash
number_or_dash (some n) = print_nat n

abbrev pub time_or_dash : Option ℕ → Text
time_or_dash none = dash
time_or_dash (some t) = utc_text t

abbrev pub disclaimer : Text
disclaimer =
    codes
      "This certificate facilitates service of process and provides court-ready proof of on-chain delivery. It does not itself effect valid legal service."

unfoldable pub case_section : CertificateData → LineWriter → LineWriter
case_section data_of w = gap (
    field (codes "Recipient wallet") data_of.recipient_wallet (
      field (codes "Defendant") data_of.defendant_name (
        field (codes "Plaintiff") data_of.plaintiff_name (
          field (codes "Case title") data_of.case_caption (
            field (codes "Case reference") (or_else data_of.notice_token dash)
              (section (codes "Case") w))))))

unfoldable pub document_section : CertificateData → LineWriter → LineWriter
document_section data_of w = gap (
    field (codes "SHA-256") (or_else data_of.document_sha256 dash) (
      field (codes "Filename")
        (codes "notice-" ++ or_else data_of.notice_token (codes "document") ++ codes ".pdf")
        (section (codes "Served document") w)))

abbrev pub proof_fields : CertificateData → Text → LineWriter → LineWriter
proof_fields data_of signature w =
    if is_empty signature
    then field (codes "Transaction") (codes "Not yet confirmed on-chain") w
    else field (codes "Block time (UTC)") (time_or_dash data_of.block_time) (
        field (codes "Slot") (number_or_dash data_of.slot) (
          link (codes "Explorer") (solscan_url signature)
            (field (codes "Transaction") signature w)))

unfoldable pub proof_section : CertificateData → LineWriter → LineWriter
proof_section data_of w = gap (
    proof_fields data_of (or_else data_of.tx_signature [])
      (section (codes "On-chain proof (Solana devnet)") w))

abbrev pub view_fields : CertificateData → Option ℕ → LineWriter → LineWriter
view_fields data_of (some t) w =
    field (codes "Viewer IP (masked)") (or_else data_of.first_viewer_ip dash)
      (field (codes "Viewed at (UTC)") (utc_text t) w)
view_fields data_of none w = field (codes "Status") (codes "Not yet viewed") w

unfoldable pub view_section : CertificateData → LineWriter → LineWriter
view_section data_of w =
    view_fields data_of data_of.first_viewed_at (section (codes "First viewed") w)

-- A link, if there is an address.
abbrev pub optional_link : Text → Text → LineWriter → LineWriter
optional_link label url w = if is_empty url then w else link label url w

unfoldable pub topic_section : CertificateData → LineWriter → LineWriter
topic_section data_of w =
    let topic : Text = or_else data_of.hcs_topic_id [] in
    if is_empty topic
    then w
    else optional_link (codes "Verify on mirror node") (or_else data_of.hcs_mirror_url []) (
        field (codes "Consensus time (UTC)") (or_else data_of.hcs_consensus_time dash) (
          field (codes "Sequence number") (number_or_dash data_of.hcs_sequence_number) (
            field (codes "Topic ID") topic
              (section (codes "Hedera Consensus Service Timestamp") (gap w)))))

unfoldable pub token_section : CertificateData → LineWriter → LineWriter
token_section data_of w =
    let token : Text = or_else data_of.hts_token_id [] in
    if is_empty token
    then w
    else optional_link (codes "NFT on mirror node") (or_else data_of.hts_mirror_url []) (
        field (codes "Serial number") (number_or_dash data_of.hts_serial_number)
          (field (codes "Token ID") token (section (codes "Hedera Proof of Service NFT") (gap w))))

unfoldable pub title_section : Widths → LineWriter → LineWriter
title_section widths w =
    gap (paragraph widths disclaimer (gap (heading (codes "EPS NOTICE CERTIFICATE") w)))

-- The texts of the page, in the order in which they are drawn.
unfoldable pub certificate_page : Widths → CertificateData → ℕ → List Drawing
certificate_page widths data_of now =
    (footer (codes "Certificate generated " ++ utc_text now) (
      token_section data_of (
        topic_section data_of (
          view_section data_of (
            proof_section data_of (
              document_section data_of
                (case_section data_of (title_section widths new_writer)))))))).drawn

pub record PdfLibrary : Type 0 where
  pub widths : Widths
  -- `drawText`, as far as it can fail, and `save`
  pub encode_text : Text → Result (Unit {0})
  pub save : ℕ → List Drawing → Result (List ℕ)

-- The addendum of a request, of which there is one at most.
abbrev pub is_addendum_of : Text → CertificateAddendum → Bool
is_addendum_of notice a = text_eq a.notice_id notice

abbrev pub data_from : ServiceRequest → Option CertificateAddendum → CertificateData
data_from r addendum = record {
  case_caption = r.case_caption;
  plaintiff_name = r.plaintiff_name;
  defendant_name = r.defendant_name;
  recipient_wallet = r.recipient_wallet;
  document_sha256 = r.document_sha256;
  tx_signature = r.tx_signature;
  slot = r.slot;
  block_time = r.block_time;
  notice_token = r.notice_token;
  first_viewed_at = elim addendum [ none ↦ none | some a ↦ some a.viewed_at ];
  first_viewer_ip = elim addendum [ none ↦ none | some a ↦ some a.viewer_ip ];
  hcs_topic_id = r.hcs_topic_id;
  hcs_sequence_number = r.hcs_sequence_number;
  hcs_consensus_time = r.hcs_consensus_time;
  hcs_mirror_url = r.hcs_mirror_url;
  hts_token_id = r.hts_token_id;
  hts_serial_number = r.hts_serial_number;
  hts_mirror_url = r.hts_mirror_url;
}

abbrev pub certificate_of : Db → Option ServiceRequest → Option CertificateData
certificate_of db none = none
certificate_of db (some r) = some (data_from r (find (is_addendum_of r.id) db.addenda))

-- What the query finds.
unfoldable pub certificate_data : Text → Db → Option CertificateData
certificate_data notice db = certificate_of db (find (has_request_id notice) db.requests)

module _ (env : Env) (lib : PdfLibrary) where
  unfoldable pub encode_all : List Drawing → Result (Unit {0})
  encode_all [] = ok tt
  encode_all (d ∷ drawings) = elim (lib.encode_text d.text) [
    | ok _ ↦ encode_all drawings
    | err e ↦ err e
    | crashed ↦ crashed
  ]

  -- `renderCertificatePdf(data)`.
  unfoldable pub render_certificate_pdf : CertificateData → Action (List ℕ)
  render_certificate_pdf data_of w =
      let page = certificate_page lib.widths data_of (env.now w.tick) in
      elim (encode_all page) [
        | ok _ ↦ (lib.save w.tick page, record w { tick = w.tick + 1 })
        | err e ↦ (err e, w)
        | crashed ↦ (crashed, w)
      ]

  unfoldable pub render_found : Text → Option CertificateData → Action (List ℕ)
  render_found notice none = throw (external (codes "No notice found for id " ++ notice))
  render_found notice (some data_of) = render_certificate_pdf data_of

  -- `generateCertificatePdf(noticeId)`.
  unfoldable pub generate_certificate_pdf : Text → Action (List ℕ)
  unfolding certificate_data
  generate_certificate_pdf notice =
      statement env (λ db. (ok (certificate_data notice db), db)) >>= render_found notice
