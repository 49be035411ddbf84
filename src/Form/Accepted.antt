-- ===== src/Form/Accepted.antt =====
-- app/dashboard/new/page.tsx and app/api/service-requests/route.ts: what the route's schema makes of
-- the body that the form posts.
use eps_dapp.Base.{◌≡◌, ◌≤◌, refl, subst, true, Option, none, some, arith, Text, length, trim}
use eps_dapp.Requests.Input.{FilingInput, parse_input}
use eps_dapp.Form.Intake.{IntakeForm, new_form, submit_body}
use eps_dapp.Form.Current.{Becomes, posts_current}

abbrev pub trimmed : Option Text → Option Text
trimmed none = none
trimmed (some s) = some (trim s)

-- The schema accepts the form only with the attestation, gives back what is in its fields, trimmed,
-- and keeps the texts within their lengths.
pub accepted_lem :
    (f : IntakeForm) (input : FilingInput)
    → parse_input (submit_body f) ≡ some input
    → (f.attested ≡ true)
      × (input.case_caption ≡ trim f.case_caption)
      × (1 ≤ length input.case_caption)
      × (length input.case_caption ≤ 500)
      × (input.plaintiff_name ≡ trim f.plaintiff_name)
      × (1 ≤ length input.plaintiff_name)
      × (length input.plaintiff_name ≤ 300)
      × (input.defendant_name ≡ trim f.defendant_name)
      × (1 ≤ length input.defendant_name)
      × (length input.defendant_name ≤ 300)
      × (input.recipient_wallet ≡ trim f.recipient_wallet)
      × (1 ≤ length input.recipient_wallet)
      × (input.recipient_resolved_address ≡ trimmed f.resolved_address)
      × (input.court_order_flag ≡ f.court_order_flag)
unfolding parse_input submit_body
accepted_lem f input e = ground (arith, e)

-- What the route is told of the recipient: whatever was typed, looked up and aborted before, in any
-- order, once no timer is pending, the address of an accepted body is, up to white space, one that
-- the recipient of that body resolves to. What a lookup answers resolves the name that was looked up.
pub accepted_current :
    (resolves : Text → Text → Type 0) {f : IntakeForm} (input : FilingInput) (b : Text)
    → Becomes resolves new_form f
    → f.timer ≡ none
    → parse_input (submit_body f) ≡ some input
    → input.recipient_resolved_address ≡ some b
    → (a : Text) × (b ≡ trim a) × resolves input.recipient_wallet a
accepted_current resolves {f = f} input b before quiet parsed sent = told f.resolved_address refl
  where
    said : trimmed f.resolved_address ≡ some b
    said = ground (arith, accepted_lem f input parsed, sent)

    posts : (a : Text) → f.resolved_address ≡ some a → resolves input.recipient_wallet a
    posts a e =
        subst (λ wallet. resolves wallet a) (ground (arith, accepted_lem f input parsed))
          (posts_current resolves a before quiet (unfold submit_body in ground (arith, e)))

    told :
        (held : Option Text)
        → f.resolved_address ≡ held
        → (a : Text) × (b ≡ trim a) × resolves input.recipient_wallet a
    told none e = absurd (ground (arith, e, said))
    told (some a) e = (a, ground (arith, e, said), posts a e)
