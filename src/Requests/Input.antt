-- ===== src/Requests/Input.antt =====
-- app/api/service-requests/route.ts: `ServiceRequestInput`, the schema of the body.
use eps_dapp.Base.{
  ℕ, Bool, true, false, ◌&&◌, Option, none, some, leb, length, if◌then◌else◌, Text, trim,
}
use eps_dapp.Http.{Field, missing, null, other, text, boolean}

pub record RawInput : Type 0 where
  pub case_caption : Field
  pub plaintiff_name : Field
  pub defendant_name : Field
  pub recipient_wallet : Field
  pub recipient_ens_name : Field
  pub recipient_resolved_address : Field
  pub court_order_flag : Field
  pub attested : Field

-- What the schema gives; `undefined` and `null` of the optional texts are not told apart.
pub record FilingInput : Type 0 where
  pub case_caption : Text
  pub plaintiff_name : Text
  pub defendant_name : Text
  pub recipient_wallet : Text
  pub recipient_ens_name : Option Text
  pub recipient_resolved_address : Option Text
  pub court_order_flag : Bool

abbrev pub within : ℕ → ℕ → Text → Option Text
within low high s = if leb low (length s) && leb (length s) high then some s else none

-- `z.string().trim().min(1).max(high)`.
abbrev pub required_text : ℕ → Field → Option Text
required_text high (text s) = within 1 high (trim s)
required_text high field = none

-- `z.string().trim().min(1)`.
abbrev pub required_any : Field → Option Text
required_any (text s) = if leb 1 (length (trim s)) then some (trim s) else none
required_any field = none

-- `z.string().trim().min(1).max(high).nullish()`.
abbrev pub nullish_text : ℕ → Field → Option (Option Text)
nullish_text high missing = some none
nullish_text high null = some none
nullish_text high (text s) = elim (within 1 high (trim s)) [ none ↦ none | some t ↦ some (some t) ]
nullish_text high (boolean b) = none
nullish_text high other = none

-- `z.string().trim().nullish()`.
abbrev pub nullish_any : Field → Option (Option Text)
nullish_any missing = some none
nullish_any null = some none
nullish_any (text s) = some (some (trim s))
nullish_any (boolean b) = none
nullish_any other = none

-- `z.boolean().optional().default(false)`, and `z.literal(true)`.
abbrev pub optional_flag : Field → Option Bool
optional_flag missing = some false
optional_flag (boolean b) = some b
optional_flag field = none

abbrev pub literal_true : Field → Option (Unit {0})
literal_true (boolean true) = some tt
literal_true field = none

infixl 5 ◌>>=◌
abbrev ◌>>=◌ : {A B : Type 0} → Option A → (A → Option B) → Option B
none >>= f = none
some a >>= f = f a

-- `ServiceRequestInput.safeParse(body)` on an object: every field has to pass.
unfoldable pub parse_input : RawInput → Option FilingInput
parse_input raw = required_text 500 raw.case_caption >>= λ caption.
    required_text 300 raw.plaintiff_name >>= λ plaintiff.
    required_text 300 raw.defendant_name >>= λ defendant.
    required_any raw.recipient_wallet >>= λ wallet.
    nullish_text 255 raw.recipient_ens_name >>= λ ens_name.
    nullish_any raw.recipient_resolved_address >>= λ resolved.
    optional_flag raw.court_order_flag >>= λ flag. literal_true raw.attested >>= λ attested.
    some (record {
      case_caption = caption;
      plaintiff_name = plaintiff;
      defendant_name = defendant;
      recipient_wallet = wallet;
      recipient_ens_name = ens_name;
      recipient_resolved_address = resolved;
      court_order_flag = flag;
    })
