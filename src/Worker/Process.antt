-- ===== src/Worker/Process.antt =====
-- worker/process.ts: what one delivery sends.
use eps_dapp.Base.{ℕ, ◌≡◌, ap, ◌⊎◌, true, false, Option, some, List, ◌∷◌, arith, Text, update_where}
use eps_dapp.Db.{ServiceRequest}
use eps_dapp.Effects.{World, Env, Result, ok, is_ok, Sent, >>=-keeps, >>=-inv}
use eps_dapp.Solana.{
  Rpc, Adapter, ConfirmationResult, get_solana_adapter, send, confirm, get_memo, is_mainnet_url,
  adapter-keeps, adapter-mainnet, confirm-keeps, get_memo-keeps,
}
use eps_dapp.Failure.{has_request_id}
use eps_dapp.Worker.Delivery.{
  expected_memo, delivery, signature_of, mark_confirmed, check_memo, deliver_with,
  persist_signature, send_with, with_signature, verify_and_confirm, process_service_request,
}

module _ (env : Env) (rpc : Rpc) (row : ServiceRequest) where
  mark-sent :
      (signature : Text) (c : ConfirmationResult) (memo : Option Text) (w : World)
      → (mark_confirmed env rpc row signature c memo w).1.sent ≡ w.sent
  unfolding mark_confirmed
  mark-sent signature c memo w = ground arith

  check_memo-sent :
      (signature : Text) (c : ConfirmationResult) (w : World)
      → (check_memo env rpc row signature c w).1.sent ≡ w.sent
  unfolding check_memo
  check_memo-sent signature c w =
      >>=-keeps (λ w. w.sent) (get_memo rpc signature) (mark_confirmed env rpc row signature c) w
        (get_memo-keeps rpc w signature).1 (mark-sent signature c)

  pub verify-sent :
      (signature : Text) (w : World) → (verify_and_confirm env rpc row signature w).1.sent ≡ w.sent
  unfolding verify_and_confirm
  verify-sent signature w =
      >>=-keeps (λ w. w.sent) (confirm rpc signature) (check_memo env rpc row signature) w
        (confirm-keeps rpc w signature).1 (check_memo-sent signature)

  -- A request whose signature is on record is never sent again, whatever happens.
  pub process_resumed :
      (signature : Text) (w : World)
      → row.tx_signature ≡ some signature
      → (process_service_request env rpc row w).1.sent ≡ w.sent
  unfolding process_service_request deliver_with signature_of
  process_resumed signature w e =
      >>=-keeps (λ w. w.sent) (get_solana_adapter rpc) (deliver_with env rpc row) w
        (ap (λ w. w.sent) (adapter-keeps rpc w)) (λ a w. simp e (verify-sent signature w))

  -- With an endpoint on mainnet nothing is sent and no row changes.
  pub process_mainnet :
      (w : World) (url : Text)
      → rpc.rpc_url ≡ some url
      → is_mainnet_url url ≡ true
      → ((process_service_request env rpc row w).1 ≡ w)
        × (is_ok (process_service_request env rpc row w).0 ≡ false)
  unfolding process_service_request
  process_mainnet w url e m =
      >>=-inv (λ r. (r.1 ≡ w) × (is_ok r.0 ≡ false)) (get_solana_adapter rpc) w
        (deliver_with env rpc row) (λ a h. absurd (ground (arith, adapter-mainnet rpc w url e m)))
        (λ r h k. (adapter-keeps rpc w, h))

-- The transaction that a request stands for.
abbrev pub sent_for : ServiceRequest → ℕ → Sent
sent_for row lamports = record {
  recipient = row.recipient_wallet;
  lamports = lamports;
  memo = expected_memo row;
}

abbrev pub signed : ServiceRequest → Text → List ServiceRequest → List ServiceRequest
signed row signature = update_where (has_request_id row.id) (with_signature signature)

-- What a fresh attempt leaves behind: nothing; or one transaction whose signature no row has, and
-- no signature to go on with; or one transaction whose signature is on record.
abbrev pub Attempted : ServiceRequest → World → Result Text × World → Type 0
Attempted row w (r, w') =
    ((is_ok r ≡ false) × (w'.db ≡ w.db) × (w'.sent ≡ w.sent))
    ⊎ ((is_ok r ≡ false) × (w'.db ≡ w.db) × ((l : ℕ) × (w'.sent ≡ sent_for row l ∷ w.sent)))
    ⊎ ((signature : Text) × (r ≡ ok signature)
        × (w'.db.requests ≡ signed row signature w.db.requests)
        × ((l : ℕ) × (w'.sent ≡ sent_for row l ∷ w.sent)))

module _ (env : Env) (rpc : Rpc) (row : ServiceRequest) where
  persist_signature_lem :
      (signature : Text) (w : World)
      → ((persist_signature env rpc row signature w).1.sent ≡ w.sent)
        × ((is_ok (persist_signature env rpc row signature w).0 ≡ false)
              × ((persist_signature env rpc row signature w).1.db ≡ w.db)
            ⊎ ((persist_signature env rpc row signature w).0 ≡ ok signature)
              × ((persist_signature env rpc row signature w).1.db.requests
                  ≡ signed row signature w.db.requests))
  unfolding persist_signature
  persist_signature_lem signature w = ground arith

  send_lem :
      (a : Adapter) (l : ℕ) (w : World)
      → ((send rpc a (delivery l row) w).1.db ≡ w.db)
        × (((send rpc a (delivery l row) w).1.sent ≡ w.sent)
              × (is_ok (send rpc a (delivery l row) w).0 ≡ false)
            ⊎ ((send rpc a (delivery l row) w).1.sent ≡ sent_for row l ∷ w.sent))
  unfolding send
  send_lem a l w = ground arith

  pub send_with-Attempted :
      (a : Adapter) (l : ℕ) (w : World) → Attempted row w (send_with env rpc a row l w)
  unfolding send_with
  send_with-Attempted a l w =
      >>=-inv (Attempted row w) (send rpc a (delivery l row)) w (persist_signature env rpc row)
        (λ signature h. ground (
          arith,
          send_lem a l w,
          persist_signature_lem signature (send rpc a (delivery l row) w).1,
        ))
        (λ r h k. ground (arith, send_lem a l w))
