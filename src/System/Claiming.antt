-- ===== src/System/Claiming.antt =====
-- worker/index.ts and lib/failure.ts: a claimed request, delivered or given up, is taken along its
-- life cycle.
use mathlib.Core.List.{Memᴰ}
use eps_dapp.Base.{
  mem-update_where, ◌≡◌, refl, ap, sym, subst, ◌∙◌, Bool, true, false, Option, none, some, ◌⊎◌,
  arith, Text, inl, inr, update_where, text_eq_refl,
}
use eps_dapp.Db.{Db, ServiceRequest, ServiceStatus}
use eps_dapp.Effects.{
  World, Env, Error, ok, pure, is_ok, Result-cases, >>=-inv, catch-inv, find_first_request,
}
use eps_dapp.Failure.{
  has_request_id, fail_service_request, parked, stored_reason, Failed, fail-Failed, fail-atomic,
  FailServiceRequestInput,
}
use eps_dapp.Solana.{Rpc}
use eps_dapp.Worker.{
  FindsRequest, claimable, in_progress, is_claimable, take_candidate, claim_next, failure_of,
  record_failure, deliver_or_fail, process_service_request, process-Delivered, Restored-requests,
  is_open,
}
use eps_dapp.Lifecycle.{
  take_up, Reaches, here, onward, Advances, UniqueIds, Follows, Follows-update, Follows-Evolved,
  Evolved, same-Evolved, Evolved-trans,
}
use eps_dapp.System.Rules.{Evolves, Keeps-Evolves, >>=-Evolves}
use eps_dapp.System.Delivery.{Taken, Taken-Evolved, parked-Advances, Delivered-Attempt}

module _ (env : Env) where
  Failed-Evolved :
      (input : FailServiceRequestInput) (row : ServiceRequest) (before after : Db) (answer : Bool)
      → UniqueIds before
      → row.id ≡ input.service_request_id
      → Taken row before
      → Failed env input before after answer
      → Evolved before after
  Failed-Evolved input row before after answer unique same taken (mid, restored, (_, e)) =
      Taken-Evolved (parked (stored_reason input)) row before after unique taken
        (parked-Advances (stored_reason input) row taken.1)
        (ap (λ (db : Db). db.requests) e
          ∙ Restored-requests env input.org_id _ mid answer restored
          ∙ ap
              (λ id.
                update_where (has_request_id id) (parked (stored_reason input)) before.requests)
              (sym same))

  fail-Evolved :
      (input : FailServiceRequestInput) (row : ServiceRequest) (w : World)
      → UniqueIds w.db
      → row.id ≡ input.service_request_id
      → Taken row w.db
      → Evolved w.db (fail_service_request env input w).1.db
  fail-Evolved input row w unique same taken =
      elim (Result-cases (fail_service_request env input w).0) [
        | inl (answer, k) ↦
            Failed-Evolved input row w.db _ answer unique same taken
              (fail-Failed env input answer w k)
        | inr other ↦
            same-Evolved w.db _ unique
              (ap (λ (db : Db). db.requests) (fail-atomic env input w (ground (arith, other))))
      ]

  open-Advances :
      (r : ServiceRequest) (s : ServiceStatus)
      → r.status ≡ s
      → is_claimable s ≡ true
      → Advances r (in_progress r)
  open-Advances r ServiceStatus.staged e k = record {
    same_terms = refl;
    reached = subst (λ s. Reaches s ServiceStatus.in_progress) (sym e) (onward take_up here);
    keeps_signature = λ s k. k;
  }
  open-Advances r ServiceStatus.in_progress e k = record {
    same_terms = refl;
    reached = subst (λ s. Reaches s ServiceStatus.in_progress) (sym e) here;
    keeps_signature = λ s k. k;
  }
  open-Advances r ServiceStatus.confirmed e k = absurd (ground arith)
  open-Advances r ServiceStatus.failed e k = absurd (ground arith)

  take_rows :
      (c : ServiceRequest) (w : World)
      → ((take_candidate env (some c) w).1.db.requests
          ≡ update_where (is_open c.id) in_progress w.db.requests)
        ⊎ (((take_candidate env (some c) w).1.db.requests ≡ w.db.requests)
            × (is_ok (take_candidate env (some c) w).0 ≡ false))
  unfolding take_candidate
  take_rows c w = ground arith

  take-Evolves : (candidate : Option ServiceRequest) → Evolves (take_candidate env candidate)
  take-Evolves none w unique = same-Evolved w.db _ unique (unfold take_candidate in refl)
  take-Evolves (some c) w unique = elim (take_rows c w) [
    | inl rows ↦ Follows-Evolved w.db _ unique (
        subst (Follows w.db.requests) (sym rows) (
          Follows-update (is_open c.id) in_progress w.db.requests
            (λ r m k. open-Advances r r.status refl (ground arith))))
    | inr (same, _) ↦ same-Evolved w.db _ unique same
  ]

  pub claim-Evolves : Evolves (claim_next env)
  unfolding claim_next
  claim-Evolves =
      >>=-Evolves (find_first_request env claimable) (take_candidate env)
        (Keeps-Evolves (find_first_request env claimable) (λ w. ground arith)) take-Evolves

  module _ (finds : FindsRequest env) where
    taken_row :
        (c row : ServiceRequest) (w : World)
        → (take_candidate env (some c) w).0 ≡ ok (some row)
        → row ≡ in_progress c
    unfolding take_candidate
    taken_row c row w h = ground arith

    take-Taken :
        (candidate : Option ServiceRequest) (row : ServiceRequest) (w : World)
        → env.first_request claimable w.db.requests ≡ candidate
        → (take_candidate env candidate w).0 ≡ ok (some row)
        → Taken row (take_candidate env candidate w).1.db
    take-Taken none row w e h = absurd (unfold take_candidate in ground arith)
    take-Taken (some c) row w e h = elim (take_rows c w) [
      | inl rows ↦
          subst (λ row. Taken row (take_candidate env (some c) w).1.db) (sym (taken_row c row w h))
            (
              subst (Memᴰ (in_progress c)) (sym rows) (
                  mem-update_where (is_open c.id) in_progress w.db.requests c
                    (finds.request_mem claimable w.db.requests c e)
                    (ground
                      (arith, text_eq_refl c.id, finds.request_meets claimable w.db.requests c e))),
              refl,
            )
      | inr (_, failed) ↦ absurd (ground (arith, failed, h))
    ]

    pub claim-Taken :
        (row : ServiceRequest) (w : World)
        → (claim_next env w).0 ≡ ok (some row)
        → Taken row (claim_next env w).1.db
    unfolding claim_next
    claim-Taken row w =
        >>=-inv (λ r. r.0 ≡ ok (some row) → Taken row r.1.db) (find_first_request env claimable) w
          (take_candidate env) (λ candidate h k. take-Taken candidate row _ (ground (arith, h)) k)
          (λ r h k f. absurd (ground arith))

    module _ (rpc : Rpc) (message : Error → Text) where
      pub deliver-Evolved :
          (row : ServiceRequest) (w : World)
          → UniqueIds w.db
          → Taken row w.db
          → Evolved w.db (deliver_or_fail env rpc message row w).1.db
      unfolding deliver_or_fail
      deliver-Evolved row w unique taken =
          let (so_far, failing) =
            Delivered-Attempt rpc row w (process_service_request env rpc row w).1
              (process_service_request env rpc row w).0 unique taken
              (process-Delivered env rpc row w) in
          catch-inv (λ r. Evolved w.db r.1.db) (process_service_request env rpc row)
            (record_failure env rpc message row) w (λ a k. so_far)
            (λ e k.
              let (still, same, taken_then) = failing (ground (arith, k)) in
              Evolved-trans so_far (
                recorded-Evolved row e still (process_service_request env rpc row w).1 so_far.unique
                  same taken_then))
            (λ k. so_far)
        where
          recorded-Evolved :
              (row : ServiceRequest) (e : Error) (still : ServiceRequest) (w : World)
              → UniqueIds w.db
              → still.id ≡ row.id
              → Taken still w.db
              → Evolved w.db (record_failure env rpc message row e w).1.db
          recorded-Evolved row e still w unique same taken =
              unfold record_failure in
              >>=-inv (λ r. Evolved w.db r.1.db)
                (fail_service_request env (failure_of message row e)) w (λ _. pure tt)
                (λ a k. fail-Evolved (failure_of message row e) still w unique same taken)
                (λ r h k. fail-Evolved (failure_of message row e) still w unique same taken)
