-- ===== src/Form/Intake.antt =====
-- app/dashboard/new/page.tsx: the form of a new request. Its state is what the component keeps, with
-- the timer that is pending and the lookup that is under way and not aborted, if there is one.
use eps_dapp.Base.{
  Bool, true, false, not, ◌&&◌, ◌||◌, Option, none, some, or_else, List, [], ◌∷◌, ◌++◌, ltb, length,
  is_empty, if◌then◌else◌, Text, codes, text_eq, includes, trim,
}
use eps_dapp.Chains.Address.{is_evm_address}
use eps_dapp.Http.{Field, null, text, boolean}
use eps_dapp.Requests.Input.{RawInput}

-- `looksLikeENSName(value)`.
unfoldable pub looks_like_ens_name : Text → Bool
unfolding trim is_evm_address includes
looks_like_ens_name value =
    if ltb (length (trim value)) 3 || is_evm_address (trim value)
    then false
    else includes (codes ".") (trim value)

pub record IntakeForm : Type 0 where
  pub case_caption : Text
  pub plaintiff_name : Text
  pub defendant_name : Text
  pub recipient_wallet : Text
  pub court_order_flag : Bool
  pub attested : Bool
  pub resolved_address : Option Text
  pub ens_resolving : Bool
  -- the one message of a lookup that failed is shown
  pub ens_error : Bool
  pub submitting : Bool
  pub error : Option Text
  pub issues : Option Text
  -- the value that the timer will look up, and the one that is looked up
  pub timer : Option Text
  pub lookup : Option Text
  -- the bodies that were posted, and whether the browser moved on to the dashboard
  pub posted : List RawInput
  pub moved_on : Bool

-- The effect on `[recipientWallet]`: its cleanup clears the timer and aborts the lookup.
unfoldable pub run_effect : IntakeForm → IntakeForm
unfolding looks_like_ens_name trim
run_effect f =
    if looks_like_ens_name (trim f.recipient_wallet)
    then record f { timer = some (trim f.recipient_wallet); lookup = none }
    else record f {
      resolved_address = none;
      ens_resolving = false;
      ens_error = false;
      timer = none;
      lookup = none;
    }

abbrev pub empty_form : IntakeForm
empty_form = record {
  case_caption = [];
  plaintiff_name = [];
  defendant_name = [];
  recipient_wallet = [];
  court_order_flag = false;
  attested = false;
  resolved_address = none;
  ens_resolving = false;
  ens_error = false;
  submitting = false;
  error = none;
  issues = none;
  timer = none;
  lookup = none;
  posted = [];
  moved_on = false;
}

-- The form as it is mounted.
unfoldable pub new_form : IntakeForm
unfolding run_effect
new_form = run_effect empty_form

-- `setRecipientWallet(value)`: the effect runs again if the value is another one.
unfoldable pub type_recipient : Text → IntakeForm → IntakeForm
unfolding run_effect text_eq
type_recipient value f =
    if text_eq value f.recipient_wallet
    then f
    else run_effect (record f { recipient_wallet = value })

abbrev pub start_lookup : Option Text → IntakeForm → IntakeForm
start_lookup none f = f
start_lookup (some value) f = record f {
  ens_resolving = true;
  ens_error = false;
  resolved_address = none;
  timer = none;
  lookup = some value;
}

-- The 500 ms are over.
unfoldable pub fire_timer : IntakeForm → IntakeForm
fire_timer f = start_lookup f.timer f

-- What comes back: the status and the address, or no response.
pub data LookupAnswer : Type 0 where
  answered : Bool → Option Text → LookupAnswer
  unreachable : LookupAnswer

abbrev pub address_of : LookupAnswer → Option Text
address_of (answered is_ok address) =
    if is_ok && not (is_empty (or_else address [])) then address else none
address_of unreachable = none

abbrev pub settle_lookup : Option Text → IntakeForm → IntakeForm
settle_lookup none f = record f {
  resolved_address = none;
  ens_error = true;
  ens_resolving = false;
  lookup = none;
}
settle_lookup (some address) f = record f {
  resolved_address = some address;
  ens_error = false;
  ens_resolving = false;
  lookup = none;
}

-- An aborted lookup changes nothing.
abbrev pub end_lookup : Option Text → LookupAnswer → IntakeForm → IntakeForm
end_lookup none answer f = f
end_lookup (some value) answer f = settle_lookup (address_of answer) f

unfoldable pub answer_lookup : LookupAnswer → IntakeForm → IntakeForm
answer_lookup answer f = end_lookup f.lookup answer f

abbrev pub text_or_null : Option Text → Field
text_or_null none = null
text_or_null (some s) = text s

-- The body of `onSubmit`.
unfoldable pub submit_body : IntakeForm → RawInput
unfolding looks_like_ens_name trim
submit_body f = record {
  case_caption = text f.case_caption;
  plaintiff_name = text f.plaintiff_name;
  defendant_name = text f.defendant_name;
  recipient_wallet = text f.recipient_wallet;
  recipient_ens_name =
      if looks_like_ens_name f.recipient_wallet then text (trim f.recipient_wallet) else null;
  recipient_resolved_address = text_or_null f.resolved_address;
  court_order_flag = boolean f.court_order_flag;
  attested = boolean f.attested;
}

-- `onSubmit`, up to the response. The button is disabled while a request is being staged, and
-- until the filer attests.
unfoldable pub submit : IntakeForm → IntakeForm
unfolding submit_body
submit f = if f.submitting || not f.attested then f else record f {
  error = none;
  issues = none;
  submitting = true;
  posted = f.posted ++ submit_body f ∷ [];
}

pub data SubmitAnswer : Type 0 where
  accepted : SubmitAnswer
  -- the error and the issues of the answer
  refused : Option Text → Option Text → SubmitAnswer
  -- the message of what was thrown, if it is an Error
  broken : Option Text → SubmitAnswer

abbrev pub not_staged : Text
not_staged = codes "Could not stage the service request."

-- `onSubmit`, from the response on.
unfoldable pub answer_submit : SubmitAnswer → IntakeForm → IntakeForm
answer_submit accepted f = record f { moved_on = true }
answer_submit (refused said issues) f = record f {
  issues = issues;
  error = some (or_else said not_staged);
  submitting = false;
}
answer_submit (broken message) f = record f {
  error = some (or_else message not_staged);
  submitting = false;
}
