-- ===== src/System/Proofs.antt =====
-- lib/hedera and worker/process.ts: the proofs on Hedera are no terms of a request.
use eps_dapp.Base.{
  ◌≡◌, refl, ap, sym, subst, some, Option, none, arith, Text, is_some, ◌||◌, Bool-cases, inl, inr,
}
use eps_dapp.Db.{Db, ServiceRequest, requests_table}
use eps_dapp.Effects.{Env, ◌>>=◌, pure, update}
use eps_dapp.Failure.{has_request_id}
use eps_dapp.Hedera.Sdk.{Hedera}
use eps_dapp.Hedera.Service.{HederaPayload, HederaServiceResult, record_on_hedera}
use eps_dapp.Hedera.Transfer.{ProofNftTransferResult, mint_and_transfer_proof_nft}
use eps_dapp.Hedera.Tasks.{
  with_proofs, with_transfer, persist_proofs, anchor_on_hedera, payload_of, run_anchor,
  persist_transfer, run_transfer,
}
use eps_dapp.Hedera.{record-keeps, mint_and_transfer-keeps}
use eps_dapp.Lifecycle.{Advances, Reaches, here}
use eps_dapp.System.Rules.{Evolves, Keeps-Evolves, catch-Evolves, >>=-Evolves, update-Evolves}

proofs_lem :
    (result : HederaServiceResult) (r : ServiceRequest)
    → ((with_proofs result r).status ≡ r.status)
      × ((with_proofs result r).tx_signature ≡ r.tx_signature)
proofs_lem result r = ground arith

proofs-Advances :
    (result : HederaServiceResult) (r : ServiceRequest) → Advances r (with_proofs result r)
proofs-Advances result r = record {
  same_terms = ground arith;
  reached = subst (Reaches r.status) (sym (proofs_lem result r).0) here;
  keeps_signature = λ signature e. ground (arith, proofs_lem result r);
}

module _ (env : Env) (h : Hedera) where
  persist-Evolves :
      (id : Text) (result : HederaServiceResult) → Evolves (persist_proofs env h id result)
  unfolding persist_proofs
  persist-Evolves id result w unique =
      elim (Bool-cases (is_some result.hcs || is_some result.hts)) [
        | inl e ↦ simp e (
            >>=-Evolves (update env requests_table (has_request_id id) (with_proofs result))
              (λ _. pure tt)
              (update-Evolves env (has_request_id id) (with_proofs result) (proofs-Advances result))
              (λ _. Keeps-Evolves (pure tt) (λ w. refl)) w unique)
        | inr e ↦ simp e (Keeps-Evolves (pure tt) (λ w. refl) w unique)
      ]

  pub anchor-Evolves :
      (id : Text) (payload : HederaPayload) → Evolves (anchor_on_hedera env h id payload)
  unfolding anchor_on_hedera
  anchor-Evolves id payload =
      catch-Evolves (record_on_hedera env h payload >>= persist_proofs env h id) (λ e. pure tt)
        (>>=-Evolves (record_on_hedera env h payload) (persist_proofs env h id)
          (Keeps-Evolves (record_on_hedera env h payload)
            (λ w. ap (λ (db : Db). db.requests) (record-keeps env h payload w)))
          (persist-Evolves id))
        (λ e. Keeps-Evolves (pure tt) (λ w. refl))

  pub run_anchor-Evolves : (row : ServiceRequest) → Evolves (run_anchor env h row)
  unfolding run_anchor
  run_anchor-Evolves row = anchor-Evolves row.id (payload_of h row)

  transfer-Evolves :
      (id : Text) (nft : Option ProofNftTransferResult) → Evolves (persist_transfer env h id nft)
  unfolding persist_transfer
  transfer-Evolves id none = Keeps-Evolves (pure tt) (λ w. refl)
  transfer-Evolves id (some nft) =
      >>=-Evolves (update env requests_table (has_request_id id) (with_transfer nft)) (λ _. pure tt)
        (update-Evolves env (has_request_id id) (with_transfer nft)
          (λ r. record { same_terms = refl; reached = here; keeps_signature = λ signature e. e }))
        (λ _. Keeps-Evolves (pure tt) (λ w. refl))

  pub run_transfer-Evolves : (row : ServiceRequest) → Evolves (run_transfer env h row)
  unfolding run_transfer
  run_transfer-Evolves row =
      catch-Evolves (mint_and_transfer_proof_nft h _ >>= persist_transfer env h row.id)
        (λ e. pure tt)
        (>>=-Evolves (mint_and_transfer_proof_nft h _) (persist_transfer env h row.id)
          (Keeps-Evolves (mint_and_transfer_proof_nft h _)
            (λ w. ap (λ (db : Db). db.requests) (mint_and_transfer-keeps h _ w)))
          (transfer-Evolves row.id))
        (λ e. Keeps-Evolves (pure tt) (λ w. refl))
