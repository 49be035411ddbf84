-- ===== src/Failure/Record.antt =====
-- lib/failure.ts: what a terminal failure leaves on record, in terms of its input alone.
use eps_dapp.Base.{
  ℕ, zero, suc, ◌≡◌, ◌≤◌, ◌⊎◌, refl, inl, inr, ap, ◌∙◌, Bool, Option, none, some, [], ◌∷◌, ◌++◌,
  arith, take, length, update_where, text_eq, Text, codes,
}
use eps_dapp.Db.{Db, ServiceRequest, ServiceStatus, service_failed}
use eps_dapp.Effects.{Env, World, ok}
use eps_dapp.Quota.{Restored}
use eps_dapp.Failure.Handler.{FailServiceRequestInput, fail_service_request, truthy, stored_reason}
use eps_dapp.Failure.Atomic.{fail-Failed}

-- The longest beginning of a text that has at most so many units.
pub record IsCut (limit : ℕ) (whole part : Text) : Type 0 where
  pub rest : Text
  pub begins : part ++ rest ≡ whole
  pub short : length part ≤ limit
  pub longest : (rest ≡ []) ⊎ (length part ≡ limit)

-- A signature that is told: none that is empty.
abbrev pub told : Option Text → Option Text
told none = none
told (some []) = none
told (some (c ∷ s)) = some (c ∷ s)

-- The request that failed.
abbrev pub failed_row : Text → ServiceRequest → ServiceRequest
failed_row reason r = record r { status = ServiceStatus.failed; failure_reason = some reason }

-- The request is FAILED with the reason; then the quota was restored as the answer says; then one
-- audit row was added, by the worker, with the same reason.
pub record Recorded (env : Env) (input : FailServiceRequestInput) (before after : Db)
    (answer : Bool) : Type 0 where
  pub reason : Text
  pub cut : IsCut 500 input.reason reason
  pub mid : Db
  pub audit_id : Text
  pub restored :
      Restored env input.org_id
        (record before {
          requests =
              update_where
                (λ (r : ServiceRequest). text_eq r.id input.service_request_id)
                (failed_row reason)
                before.requests;
        })
        mid
        answer
  pub audited : after ≡ record mid {
    audit_log =
        mid.audit_log
        ++ record {
          id = audit_id;
          detail = service_failed input.org_id reason answer (told input.tx_signature);
          actor_id = codes "system:worker";
          target_id = input.service_request_id;
        }
          ∷ [];
  }

take-IsCut : (n : ℕ) (s : Text) → IsCut n s (take n s)
take-IsCut zero s = record { rest = s; begins = refl; short = omega arith; longest = inr refl }
take-IsCut (suc n) [] = record { rest = []; begins = refl; short = omega arith; longest = inl refl }
take-IsCut (suc n) (c ∷ s) =
    let so_far = take-IsCut n s in
    record {
      rest = so_far.rest;
      begins = ap (λ t. c ∷ t) so_far.begins;
      short = omega (arith, so_far.short);
      longest = elim so_far.longest [ inl e ↦ inl e | inr e ↦ inr (ap suc e) ];
    }

truthy-told : (signature : Option Text) → truthy signature ≡ told signature
truthy-told none = refl
truthy-told (some []) = refl
truthy-told (some (c ∷ s)) = refl

-- A terminal failure that returns is recorded whole: the request is FAILED with the reason, which
-- is the given one, or the first 500 units of a longer one; a unit of quota is given back if the
-- answer says so; and one audit row of the worker tells of it, with the same reason and with the
-- signature, if there is one.
pub fail-Recorded :
    (env : Env) (input : FailServiceRequestInput) (answer : Bool) (w : World)
    → (fail_service_request env input w).0 ≡ ok answer
    → Recorded env input w.db (fail_service_request env input w).1.db answer
fail-Recorded env input answer w h =
    let (mid, restored, (audit_id, audited)) = fail-Failed env input answer w h in
    record {
      reason = stored_reason input;
      cut = take-IsCut 500 input.reason;
      mid = mid;
      audit_id = audit_id;
      restored = restored;
      audited =
          audited
          ∙ ap
              (λ signature. record mid {
                audit_log =
                    mid.audit_log
                    ++ record {
                      id = audit_id;
                      detail = service_failed input.org_id (stored_reason input) answer signature;
                      actor_id = codes "system:worker";
                      target_id = input.service_request_id;
                    }
                      ∷ [];
              })
              (truthy-told input.tx_signature);
    }
