-- ===== src/Pdf/Plain.antt =====
-- lib/certificate-pdf.ts: the texts of a certificate have no line break, if the notice's have none.
use eps_dapp.Base.{
  ◌⊎◌, subst, sym, ℕ, ◌/◌, ◌≡◌, refl, Bool, true, false, not, ◌&&◌, Option, none, some, List, [],
  ◌∷◌, ◌++◌, arith, All, Text, is_empty, ltb, codes, Bool-cases, inl, inr, or_else, zero, suc,
}
use eps_dapp.Calendar.{utc_text, iso_date, iso_time}
use eps_dapp.Printing.{digit, pad, print_from, print_nat}
use eps_dapp.Pdf.Wrap.{wrap_from, split_runs, candidate}
use eps_dapp.Pdf.Render.{CertificateData, disclaimer, number_or_dash, time_or_dash}

abbrev pub is_plain : Text → Bool
is_plain [] = true
is_plain (c ∷ s) = not (ltb c 32) && is_plain s

-- A text without a control unit: a line feed, a tab or another one below the space.
pub record IsPlain (text : Text) : Type 0 where
  pub plain : is_plain text ≡ true

-- The columns of a notice that are drawn, without control units.
pub record PlainData (data_of : CertificateData) : Type 0 where
  pub caption : IsPlain data_of.case_caption
  pub plaintiff : IsPlain data_of.plaintiff_name
  pub defendant : IsPlain data_of.defendant_name
  pub wallet : IsPlain data_of.recipient_wallet
  pub sha256 : IsPlain (or_else data_of.document_sha256 [])
  pub signature : IsPlain (or_else data_of.tx_signature [])
  pub token : IsPlain (or_else data_of.notice_token [])
  pub viewer_ip : IsPlain (or_else data_of.first_viewer_ip [])
  pub topic : IsPlain (or_else data_of.hcs_topic_id [])
  pub consensus : IsPlain (or_else data_of.hcs_consensus_time [])
  pub topic_url : IsPlain (or_else data_of.hcs_mirror_url [])
  pub nft : IsPlain (or_else data_of.hts_token_id [])
  pub nft_url : IsPlain (or_else data_of.hts_mirror_url [])

pub lit : {t : Text} → is_plain t ≡ true → IsPlain t
lit e = record { plain = e }

append_lem : (s t : Text) → is_plain s ≡ true → is_plain t ≡ true → is_plain (s ++ t) ≡ true
append_lem [] t h k = k
append_lem (c ∷ s) t h k = ground (arith, append_lem s t (ground (arith, h)) k, h)

-- Also of a text that two plain ones make.
pub append-IsPlain : {s t : Text} → IsPlain s → IsPlain t → IsPlain (s ++ t)
append-IsPlain {s = s} {t = t} h k = lit (append_lem s t h.plain k.plain)

pub or_else-IsPlain :
    (o : Option Text) {t : Text} → IsPlain (or_else o []) → IsPlain t → IsPlain (or_else o t)
or_else-IsPlain none h k = k
or_else-IsPlain (some s) h k = h

digit-IsPlain : (n : ℕ) → IsPlain (digit n ∷ [])
digit-IsPlain n = lit (ground arith)

pad-IsPlain : (width n : ℕ) → IsPlain (pad width n)
unfolding pad
pad-IsPlain zero n = lit refl
pad-IsPlain (suc width) n = append-IsPlain (pad-IsPlain width (n / 10)) (digit-IsPlain n)

print_from-IsPlain : (fuel n : ℕ) → IsPlain (print_from fuel n)
unfolding print_from
print_from-IsPlain zero n = digit-IsPlain n
print_from-IsPlain (suc fuel) n = elim (Bool-cases (ltb n 10)) [
  | inl e ↦ simp e (digit-IsPlain n)
  | inr e ↦ simp e (append-IsPlain (print_from-IsPlain fuel (n / 10)) (digit-IsPlain n))
]

pub number-IsPlain : (n : Option ℕ) → IsPlain (number_or_dash n)
unfolding print_nat
number-IsPlain none = lit refl
number-IsPlain (some n) = print_from-IsPlain n n

-- Three numbers, each of some digits, and a text between two of them.
three_numbers :
    (sep : Text) (a b c n m k : ℕ)
    → IsPlain sep
    → IsPlain (pad a n ++ sep ++ pad b m ++ sep ++ pad c k)
three_numbers sep a b c n m k h =
    append-IsPlain
      (append-IsPlain (append-IsPlain (append-IsPlain (pad-IsPlain a n) h) (pad-IsPlain b m)) h)
      (pad-IsPlain c k)

date-IsPlain : (t : ℕ) → IsPlain (iso_date t)
unfolding iso_date
date-IsPlain t = three_numbers (codes "-") 4 2 2 _ _ _ (lit refl)

clock-IsPlain : (t : ℕ) → IsPlain (iso_time t)
unfolding iso_time
clock-IsPlain t = three_numbers (codes ":") 2 2 2 _ _ _ (lit refl)

pub utc-IsPlain : (t : ℕ) → IsPlain (utc_text t)
unfolding utc_text
utc-IsPlain t =
    append-IsPlain {t = codes " UTC"}
      (append-IsPlain (append-IsPlain {t = codes " "} (date-IsPlain t) (lit refl))
        (clock-IsPlain t))
      (lit refl)

pub time-IsPlain : (t : Option ℕ) → IsPlain (time_or_dash t)
time-IsPlain none = lit refl
time-IsPlain (some t) = utc-IsPlain t

candidate-IsPlain :
    (too_wide : Text → Bool) (current word : Text)
    → IsPlain current
    → IsPlain word
    → IsPlain (candidate too_wide current word)
candidate-IsPlain too_wide current word h k = elim (Bool-cases (is_empty current)) [
  | inl e ↦ simp e k
  | inr e ↦ simp e (append-IsPlain h (append-IsPlain {s = b' ' ∷ []} (lit refl) k))
]

wrap_from_lem :
    (too_wide : Text → Bool) (current word : Text) (words : List Text)
    → (wrap_from too_wide current (word ∷ words) ≡ current ∷ wrap_from too_wide word words)
      ⊎ (wrap_from too_wide current (word ∷ words)
          ≡ wrap_from too_wide (candidate too_wide current word) words)
unfolding wrap_from
wrap_from_lem too_wide current word words = ground arith

pub wrap_from-Plain :
    (too_wide : Text → Bool) (current : Text) (words : List Text)
    → IsPlain current
    → All (λ w. IsPlain w) words
    → All (λ l. IsPlain l) (wrap_from too_wide current words)
unfolding wrap_from
wrap_from-Plain too_wide current [] h k = elim (Bool-cases (is_empty current)) [
  | inl e ↦ simp e tt
  | inr e ↦ simp e (h, tt)
]
wrap_from-Plain too_wide current (word ∷ words) h (p, k) =
    elim (wrap_from_lem too_wide current word words) [
      | inl e ↦ subst (All (λ l. IsPlain l)) (sym e) (h, wrap_from-Plain too_wide word words p k)
      | inr e ↦ subst (All (λ l. IsPlain l)) (sym e) (
          wrap_from-Plain too_wide (candidate too_wide current word) words
            (candidate-IsPlain too_wide current word h p) k)
    ]

abbrev pub all_plain : List Text → Bool
all_plain [] = true
all_plain (w ∷ words) = is_plain w && all_plain words

pub all_plain-All : (words : List Text) → all_plain words ≡ true → All (λ w. IsPlain w) words
all_plain-All [] e = tt
all_plain-All (w ∷ words) e = (lit (ground (arith, e)), all_plain-All words (ground (arith, e)))

pub disclaimer_run : all_plain (split_runs false disclaimer) ≡ true
unfolding split_runs
disclaimer_run = refl
