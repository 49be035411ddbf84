-- ===== src/Tests/Form.antt =====
-- The form of a new request and the badge of a request, on a few events.
use eps_dapp.Base.{
  ◌≡◌, ◌≤◌, refl, false, length, sym, ◌∙◌, true, some, none, arith, Text, codes, text_eq, trim,
}
use eps_dapp.Db.{ServiceStatus}
use eps_dapp.Form.{
  Becomes, left, then_happens, types, fires, answers, edits, trimmed, accepted_lem,
  accepted_current,
}
use eps_dapp.Form.Intake.{
  IntakeForm, answered, looks_like_ens_name, run_effect, new_form, type_recipient, fire_timer,
  answer_lookup, submit_body,
}
use eps_dapp.Form.Live.{LiveStatus, new_live_status, poll_status, show_status}
use eps_dapp.Http.{text}
use eps_dapp.Requests.Input.{FilingInput, parse_input}

abbrev an_address : Text
an_address = codes "0xA"

-- Only one name resolves, to one address.
abbrev Resolves : Text → Text → Type 0
Resolves name a = (name ≡ codes "a.eth") × (a ≡ an_address)

abbrev typed_form : IntakeForm
typed_form = type_recipient (codes "a.eth ") new_form

abbrev asked_form : IntakeForm
asked_form = fire_timer typed_form

abbrev told_form : IntakeForm
told_form = answer_lookup (answered true (some an_address)) asked_form

asked_run : asked_form.lookup ≡ some (codes "a.eth")
unfolding type_recipient new_form run_effect looks_like_ens_name fire_timer trim text_eq
asked_run = refl

some-injective : {a b : Text} → some a ≡ some b → a ≡ b
some-injective e = ground arith

told_run : told_form.timer ≡ none
unfolding type_recipient new_form run_effect looks_like_ens_name fire_timer trim text_eq
    answer_lookup
told_run = refl

told-Becomes : Becomes Resolves new_form told_form
told-Becomes =
    then_happens
      (then_happens (then_happens left (types (codes "a.eth ") new_form)) (fires typed_form))
      (answers (answered true (some an_address)) asked_form (λ name a looked told.
        (some-injective (sym looked ∙ asked_run), sym (some-injective told))))

abbrev filled_form : IntakeForm
filled_form = record told_form {
  case_caption = codes "A v. B";
  plaintiff_name = codes "A";
  defendant_name = codes " B ";
  attested = true;
}

filled-Becomes : Becomes Resolves new_form filled_form
filled-Becomes = then_happens told-Becomes (
    edits
      (record { same_wallet = refl; same_address = refl; same_timer = refl; same_lookup = refl }))

abbrev sample_input : FilingInput
sample_input = record {
  case_caption = codes "A v. B";
  plaintiff_name = codes "A";
  defendant_name = codes "B";
  recipient_wallet = codes "a.eth";
  recipient_ens_name = some (codes "a.eth");
  recipient_resolved_address = some an_address;
  court_order_flag = false;
}

parsed_run : parse_input (submit_body filled_form) ≡ some sample_input
unfolding type_recipient new_form run_effect looks_like_ens_name fire_timer trim text_eq
    answer_lookup submit_body parse_input
parsed_run = refl

accepted_lem_example :
    (filled_form.attested ≡ true)
    × (sample_input.case_caption ≡ trim filled_form.case_caption)
    × (1 ≤ length sample_input.case_caption)
    × (length sample_input.case_caption ≤ 500)
    × (sample_input.plaintiff_name ≡ trim filled_form.plaintiff_name)
    × (1 ≤ length sample_input.plaintiff_name)
    × (length sample_input.plaintiff_name ≤ 300)
    × (sample_input.defendant_name ≡ trim filled_form.defendant_name)
    × (1 ≤ length sample_input.defendant_name)
    × (length sample_input.defendant_name ≤ 300)
    × (sample_input.recipient_wallet ≡ trim filled_form.recipient_wallet)
    × (1 ≤ length sample_input.recipient_wallet)
    × (sample_input.recipient_resolved_address ≡ trimmed filled_form.resolved_address)
    × (sample_input.court_order_flag ≡ filled_form.court_order_flag)
accepted_lem_example = accepted_lem filled_form sample_input parsed_run

accepted_current_example :
    (a : Text) × (an_address ≡ trim a) × Resolves sample_input.recipient_wallet a
accepted_current_example =
    accepted_current Resolves {f = filled_form} sample_input an_address filled-Becomes told_run
      parsed_run refl

-- Before the timer of another name has fired, the form posts that name with the old address.
stale_run :
    (submit_body (type_recipient (codes "b.eth") told_form)).recipient_resolved_address
    ≡ text an_address
unfolding type_recipient new_form run_effect looks_like_ens_name fire_timer trim text_eq
    answer_lookup submit_body
stale_run = refl

-- Two requests are under way, of which the first reads an older status.
abbrev first_badge : LiveStatus
first_badge = poll_status ServiceStatus.in_progress (new_live_status ServiceStatus.staged)

abbrev polled_badge : LiveStatus
polled_badge = poll_status ServiceStatus.confirmed first_badge

abbrev heard_badge : LiveStatus
heard_badge = show_status (some ServiceStatus.confirmed) polled_badge

abbrev heard_again : LiveStatus
heard_again = show_status (some ServiceStatus.in_progress) heard_badge

-- The older answer comes before the effect runs again, and the badge goes back.
back_run :
    (heard_badge.status ≡ ServiceStatus.confirmed)
    × (heard_again.status ≡ ServiceStatus.in_progress)
unfolding poll_status new_live_status show_status
back_run = (refl, refl)
