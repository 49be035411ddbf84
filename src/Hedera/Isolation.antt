-- ===== src/Hedera/Isolation.antt =====
-- lib/hedera and its callers: what a failure on Hedera can do to a request, and what is kept off
-- the main network.
use eps_dapp.Base.{
  ◌≡◌, ◌≢◌, refl, ap, false, ◌⊎◌, Bool, Option, none, some, List, map, arith, Text, codes,
  update_where, Bool-cases, Option-cases, is_empty, inl, inr, ◌∷◌, [], text_eq_refl, text_eq_iff,
}
use eps_dapp.Db.{Db, ServiceRequest}
use eps_dapp.Effects.{
  World, Env, ok, err, crashed, ◌>>=◌, >>=-keeps, catch-inv, catch-keeps, pure,
  hedera_mainnet_refused,
}
use eps_dapp.Failure.{has_request_id}
use eps_dapp.Hedera.Sdk.{Hedera, build_client}
use eps_dapp.Variables.{text_variable, is_set_to}
use eps_dapp.Hedera.Service.{
  HederaPayload, HederaServiceResult, HcsResult, submit_with, submit_if, submit_to_hcs, mint_with,
  mint_if, mint_proof_nft, record_on_hedera, settled, mint_after, both_results,
}
use eps_dapp.Hedera.Transfer.{ProofNftMetadata, mint_and_transfer_proof_nft, is_refused}
use eps_dapp.Hedera.Tasks.{with_proofs, persist_proofs, anchor_on_hedera}

module _ (env : Env) (h : Hedera) where
  build_client-keeps : (w : World) → (build_client h w).1.db ≡ w.db
  unfolding build_client
  build_client-keeps w = ground arith

  module _ (payload : HederaPayload) where
    submit_if-keeps :
        (topic : Text) (client : Option Bool) (w : World)
        → (submit_if env h payload topic client w).1.db ≡ w.db
    unfolding submit_if submit_with
    submit_if-keeps topic none w = refl
    submit_if-keeps topic (some mainnet) w = ground arith

    submit-keeps : (w : World) → (submit_to_hcs env h payload w).1.db ≡ w.db
    unfolding submit_to_hcs
    submit-keeps w =
        elim (Bool-cases (is_empty (text_variable h.variables "HEDERA_HCS_TOPIC_ID"))) [
          | inl e ↦ ground (arith, e)
          | inr e ↦ simp e (
              >>=-keeps (λ w. w.db) (build_client h)
                (submit_if env h payload (text_variable h.variables "HEDERA_HCS_TOPIC_ID")) w
                (build_client-keeps w) (submit_if-keeps _))
        ]

    mint_if-keeps :
        (token : Text) (client : Option Bool) (w : World)
        → (mint_if env h payload token client w).1.db ≡ w.db
    unfolding mint_if mint_with
    mint_if-keeps token none w = refl
    mint_if-keeps token (some mainnet) w = ground arith

    mint-keeps : (w : World) → (mint_proof_nft env h payload w).1.db ≡ w.db
    unfolding mint_proof_nft
    mint-keeps w = elim (Bool-cases (is_empty (text_variable h.variables "HEDERA_NFT_TOKEN_ID"))) [
      | inl e ↦ ground (arith, e)
      | inr e ↦ simp e (
          >>=-keeps (λ w. w.db) (build_client h)
            (mint_if env h payload (text_variable h.variables "HEDERA_NFT_TOKEN_ID")) w
            (build_client-keeps w) (mint_if-keeps _))
    ]

    settled_submit-keeps :
        (w : World) → (settled env h payload (submit_to_hcs env h payload) w).1.db ≡ w.db
    settled_submit-keeps w =
        catch-keeps (λ w. w.db) (submit_to_hcs env h payload) (λ e. pure none) w (submit-keeps w)
          (λ e w'. refl)

    settled_mint-keeps :
        (w : World) → (settled env h payload (mint_proof_nft env h payload) w).1.db ≡ w.db
    settled_mint-keeps w =
        catch-keeps (λ w. w.db) (mint_proof_nft env h payload) (λ e. pure none) w (mint-keeps w)
          (λ e w'. refl)

    mint_after-keeps :
        (hcs : Option HcsResult) (w : World) → (mint_after env h payload hcs w).1.db ≡ w.db
    unfolding mint_after
    mint_after-keeps hcs w =
        >>=-keeps (λ w. w.db) (settled env h payload (mint_proof_nft env h payload))
          (λ hts. pure (both_results env h payload hcs hts)) w (settled_mint-keeps w)
          (λ hts w'. refl)

    pub record-keeps : (w : World) → (record_on_hedera env h payload w).1.db ≡ w.db
    unfolding record_on_hedera
    record-keeps w =
        >>=-keeps (λ w. w.db) (settled env h payload (submit_to_hcs env h payload))
          (mint_after env h payload) w (settled_submit-keeps w) mint_after-keeps

-- A request but for the columns of its Hedera proofs.
abbrev pub without_proofs : ServiceRequest → ServiceRequest
without_proofs r = record r {
  hcs_topic_id = none;
  hcs_sequence_number = none;
  hcs_consensus_time = none;
  hcs_tx_id = none;
  hcs_mirror_url = none;
  hts_token_id = none;
  hts_serial_number = none;
  hts_tx_id = none;
  hts_mirror_url = none;
  hts_nft_serial = none;
  hts_transfer_tx = none;
}

abbrev pub bare_requests : Db → List ServiceRequest
bare_requests db = map without_proofs db.requests

bare-update :
    (p : ServiceRequest → Bool) (f : ServiceRequest → ServiceRequest) (rows : List ServiceRequest)
    → ((r : ServiceRequest) → without_proofs (f r) ≡ without_proofs r)
    → map without_proofs (update_where p f rows) ≡ map without_proofs rows
bare-update p f [] h = refl
bare-update p f (r ∷ rows) h = ground (arith, h r, bare-update p f rows h)

with_proofs-bare :
    (result : HederaServiceResult) (r : ServiceRequest)
    → without_proofs (with_proofs result r) ≡ without_proofs r
with_proofs-bare result r = ground arith

module _ (env : Env) (h : Hedera) where
  persist_proofs-bare :
      (id : Text) (result : HederaServiceResult) (w : World)
      → bare_requests (persist_proofs env h id result w).1.db ≡ bare_requests w.db
  unfolding persist_proofs
  persist_proofs-bare id result w = ground (
    arith,
    bare-update (has_request_id id) (with_proofs result) w.db.requests (with_proofs-bare result),
  )

  -- Anchoring a request on Hedera never throws, and whatever happens there, it changes no column of
  -- a request but those of the Hedera proofs.
  pub anchor-bare :
      (id : Text) (payload : HederaPayload) (w : World)
      → (bare_requests (anchor_on_hedera env h id payload w).1.db ≡ bare_requests w.db)
        × (((anchor_on_hedera env h id payload w).0 ≡ ok tt)
            ⊎ ((anchor_on_hedera env h id payload w).0 ≡ crashed))
  unfolding anchor_on_hedera
  anchor-bare id payload w =
      catch-inv
        (λ r. (bare_requests r.1.db ≡ bare_requests w.db) × ((r.0 ≡ ok tt) ⊎ (r.0 ≡ crashed)))
        (record_on_hedera env h payload >>= persist_proofs env h id) (λ e. pure tt) w
        (λ a k. (body, inl refl)) (λ e k. (body, inl refl)) (λ k. (body, inr refl))
    where
      body :
          bare_requests ((record_on_hedera env h payload >>= persist_proofs env h id) w).1.db
          ≡ bare_requests w.db
      body =
          >>=-keeps (λ w. bare_requests w.db) (record_on_hedera env h payload)
            (persist_proofs env h id) w (ap bare_requests (record-keeps env h payload w))
            (λ result w'. persist_proofs-bare id result w')

  -- On the main network, unless HEDERA_ALLOW_MAINNET is "true", an operator's call to mint and
  -- transfer a token is refused, and nothing is sent.
  pub mint_and_transfer_refused :
      (meta : ProofNftMetadata) (id key : Text) (w : World)
      → h.variables (codes "HEDERA_OPERATOR_ID") ≡ some id
      → is_empty id ≡ false
      → h.variables (codes "HEDERA_OPERATOR_KEY") ≡ some key
      → is_empty key ≡ false
      → h.variables (codes "HEDERA_NETWORK") ≡ some (codes "mainnet")
      → h.variables (codes "HEDERA_ALLOW_MAINNET") ≢ some (codes "true")
      → mint_and_transfer_proof_nft h meta w ≡ (err hedera_mainnet_refused, w)
  unfolding mint_and_transfer_proof_nft is_refused is_set_to
  mint_and_transfer_refused meta id key w e k f l main missing =
      elim (Option-cases (h.variables (codes "HEDERA_ALLOW_MAINNET"))) [
        | inl n ↦ ground (arith, e, f, main, n, text_eq_refl (codes "mainnet"))
        | inr (v, n) ↦
            ground
              (arith, e, f, main, n, text_eq_refl (codes "mainnet"), text_eq_iff v (codes "true"))
      ]
