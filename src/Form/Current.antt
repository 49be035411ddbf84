-- ===== src/Form/Current.antt =====
-- app/dashboard/new/page.tsx: the address that the form holds is that of the name in its field, in
-- whatever order keys, timers and answers come.
use eps_dapp.Base.{
  ◌≡◌, refl, ap, sym, subst, ◌∙◌, Option, none, some, arith, Text, Bool-cases, Option-cases, inl,
  inr, text_eq, trim,
}
use eps_dapp.Http.{text}
use eps_dapp.Form.Intake.{
  IntakeForm, LookupAnswer, SubmitAnswer, accepted, refused, broken, address_of,
  looks_like_ens_name, run_effect, empty_form, new_form, type_recipient, fire_timer, start_lookup,
  settle_lookup, end_lookup, answer_lookup, submit_body, submit, answer_submit,
}

-- The lookup is not touched.
pub record SameLookup (f g : IntakeForm) : Type 0 where
  pub same_wallet : g.recipient_wallet ≡ f.recipient_wallet
  pub same_address : g.resolved_address ≡ f.resolved_address
  pub same_timer : g.timer ≡ f.timer
  pub same_lookup : g.lookup ≡ f.lookup

module _ (resolves : Text → Text → Type 0) where
  -- What happens to the form, where a lookup gives an address only if the name resolves to it.
  pub data Happens : IntakeForm → IntakeForm → Type 0 where
    types : (value : Text) (f : IntakeForm) → Happens f (type_recipient value f)
    fires : (f : IntakeForm) → Happens f (fire_timer f)
    answers :
        (answer : LookupAnswer) (f : IntakeForm)
        → ((name a : Text) → f.lookup ≡ some name → address_of answer ≡ some a → resolves name a)
        → Happens f (answer_lookup answer f)
    submits : (f : IntakeForm) → Happens f (submit f)
    staged : (answer : SubmitAnswer) (f : IntakeForm) → Happens f (answer_submit answer f)
    edits : {f g : IntakeForm} → SameLookup f g → Happens f g

  pub data Becomes : IntakeForm → IntakeForm → Type 0 where
    left : {f : IntakeForm} → Becomes f f
    then_happens : {f g h : IntakeForm} → Becomes f g → Happens g h → Becomes f h

  record IsCurrent (f : IntakeForm) : Type 0 where
    timed : (value : Text) → f.timer ≡ some value → value ≡ trim f.recipient_wallet
    looked : (value : Text) → f.lookup ≡ some value → value ≡ trim f.recipient_wallet
    held :
        (a : Text)
        → f.timer ≡ none
        → f.resolved_address ≡ some a
        → resolves (trim f.recipient_wallet) a

  effect-IsCurrent : (f : IntakeForm) → IsCurrent (run_effect f)
  unfolding run_effect
  effect-IsCurrent f = elim (Bool-cases (looks_like_ens_name (trim f.recipient_wallet))) [
    | inl e ↦ simp e (record {
      timed = λ value k. ground (arith, k);
      looked = λ value k. absurd (ground (arith, k));
      held = λ a k r. absurd (ground (arith, k));
    })
    | inr e ↦ simp e (record {
      timed = λ value k. absurd (ground (arith, k));
      looked = λ value k. absurd (ground (arith, k));
      held = λ a k r. absurd (ground (arith, r));
    })
  ]

  types-IsCurrent :
      (value : Text) (f : IntakeForm) → IsCurrent f → IsCurrent (type_recipient value f)
  unfolding type_recipient
  types-IsCurrent value f current = elim (Bool-cases (text_eq value f.recipient_wallet)) [
    | inl e ↦ simp e current
    | inr e ↦ simp e (effect-IsCurrent (record f { recipient_wallet = value }))
  ]

  starts-IsCurrent :
      (pending : Option Text) (f : IntakeForm)
      → f.timer ≡ pending
      → IsCurrent f
      → IsCurrent (start_lookup pending f)
  starts-IsCurrent none f e current = current
  starts-IsCurrent (some value) f e current = record {
    timed = λ v k. absurd (ground (arith, k));
    looked = λ v k. ground (arith, k, current.timed value e);
    held = λ a k r. absurd (ground (arith, r));
  }

  settles-IsCurrent :
      (address : Option Text) (name : Text) (f : IntakeForm)
      → IsCurrent f
      → f.lookup ≡ some name
      → ((a : Text) → address ≡ some a → resolves name a)
      → IsCurrent (settle_lookup address f)
  settles-IsCurrent none name f current e right = record {
    timed = current.timed;
    looked = λ v k. absurd (ground (arith, k));
    held = λ a k r. absurd (ground (arith, r));
  }
  settles-IsCurrent (some address) name f current e right = record {
    timed = current.timed;
    looked = λ v k. absurd (ground (arith, k));
    held = λ a k r. subst (λ name. resolves name a) (current.looked name e) (right a r);
  }

  ends-IsCurrent :
      (lookup : Option Text) (answer : LookupAnswer) (f : IntakeForm)
      → f.lookup ≡ lookup
      → IsCurrent f
      → ((name a : Text) → f.lookup ≡ some name → address_of answer ≡ some a → resolves name a)
      → IsCurrent (end_lookup lookup answer f)
  ends-IsCurrent none answer f e current right = current
  ends-IsCurrent (some name) answer f e current right =
      settles-IsCurrent (address_of answer) name f current e (λ a. right name a e)

  same-IsCurrent : (f g : IntakeForm) → SameLookup f g → IsCurrent f → IsCurrent g
  same-IsCurrent f g same current = record {
    timed = λ v k. current.timed v (sym same.same_timer ∙ k) ∙ ap trim (sym same.same_wallet);
    looked = λ v k. current.looked v (sym same.same_lookup ∙ k) ∙ ap trim (sym same.same_wallet);
    held = λ a k r.
        subst (λ wallet. resolves (trim wallet) a) (sym same.same_wallet)
          (current.held a (sym same.same_timer ∙ k) (sym same.same_address ∙ r));
  }

  submits-SameLookup : (f : IntakeForm) → SameLookup f (submit f)
  unfolding submit
  submits-SameLookup f = record {
    same_wallet = ground arith;
    same_address = ground arith;
    same_timer = ground arith;
    same_lookup = ground arith;
  }

  staged-SameLookup :
      (answer : SubmitAnswer) (f : IntakeForm) → SameLookup f (answer_submit answer f)
  unfolding answer_submit
  staged-SameLookup accepted f = record {
    same_wallet = refl;
    same_address = refl;
    same_timer = refl;
    same_lookup = refl;
  }
  staged-SameLookup (refused said issues) f = record {
    same_wallet = refl;
    same_address = refl;
    same_timer = refl;
    same_lookup = refl;
  }
  staged-SameLookup (broken message) f = record {
    same_wallet = refl;
    same_address = refl;
    same_timer = refl;
    same_lookup = refl;
  }

  Happens-IsCurrent : {f g : IntakeForm} → IsCurrent f → Happens f g → IsCurrent g
  unfolding fire_timer answer_lookup
  Happens-IsCurrent current (types value f) = types-IsCurrent value f current
  Happens-IsCurrent current (fires f) = starts-IsCurrent f.timer f refl current
  Happens-IsCurrent current (answers answer f right) =
      ends-IsCurrent f.lookup answer f refl current right
  Happens-IsCurrent current (submits f) = same-IsCurrent f (submit f) (submits-SameLookup f) current
  Happens-IsCurrent current (staged answer f) =
      same-IsCurrent f (answer_submit answer f) (staged-SameLookup answer f) current
  Happens-IsCurrent current (edits {f = f} {g = g} same) = same-IsCurrent f g same current

  Becomes-IsCurrent : {f : IntakeForm} → Becomes new_form f → IsCurrent f
  unfolding new_form
  Becomes-IsCurrent left = effect-IsCurrent empty_form
  Becomes-IsCurrent (then_happens before event) = Happens-IsCurrent (Becomes-IsCurrent before) event

  -- Whatever was typed, looked up and aborted before, in any order: once no timer is pending, an
  -- address that the form posts is the answer of a lookup of the name that is in its field. What a
  -- lookup answers resolves the name that was looked up.
  pub posts_current :
      {f : IntakeForm} (a : Text)
      → Becomes new_form f
      → f.timer ≡ none
      → (submit_body f).recipient_resolved_address ≡ text a
      → resolves (trim f.recipient_wallet) a
  unfolding submit_body
  posts_current {f = f} a before quiet posted = elim (Option-cases f.resolved_address) [
    | inl e ↦ absurd (ground (arith, e, posted))
    | inr (b, e) ↦ (Becomes-IsCurrent before).held a quiet (ground (arith, e, posted))
  ]
