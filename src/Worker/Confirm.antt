-- ===== src/Worker/Confirm.antt =====
-- worker/process.ts: when a request is confirmed, and what a delivery leaves behind.
use eps_dapp.Base.{
  ℕ, ◌≡◌, ap, ◌∙◌, ◌⊎◌, inl, inr, false, Option, none, some, List, ◌∷◌, arith, Text, text_eq_iff,
  update_where, Option-cases,
}
use eps_dapp.Db.{ServiceRequest, Db}
use eps_dapp.Effects.{World, Env, Result, ok, is_ok, >>=-inv, ◌>>=◌}
use eps_dapp.Solana.{
  Rpc, Adapter, ConfirmationResult, Finalized, decode_memo, get_solana_adapter,
  get_rent_exempt_minimum, confirm, get_memo, adapter-keeps, rent-keeps, confirm-keeps,
  get_memo-keeps,
}
use eps_dapp.Failure.{has_request_id}
use eps_dapp.Worker.Delivery.{
  expected_memo, confirmed_at, send_and_persist, signature_of, mark_confirmed, check_memo,
  deliver_with, send_with, verify_and_confirm, process_service_request,
}
use eps_dapp.Worker.Process.{Attempted, signed, sent_for, send_with-Attempted, verify-sent}

-- The transaction of the signature, as read back from the cluster, carries the memo of the request.
pub record IsVerified (rpc : Rpc) (row : ServiceRequest) (signature : Text) : Type 0 where
  pub at_tick : ℕ
  pub answer : Option Finalized
  pub read_back : rpc.get_transaction at_tick signature ≡ ok answer
  pub same_memo : decode_memo rpc answer ≡ some (expected_memo row)

abbrev pub confirmed_rows :
    ServiceRequest → ConfirmationResult → List ServiceRequest → List ServiceRequest
confirmed_rows row c = update_where (has_request_id row.id) (confirmed_at c)

-- What the second half of a delivery leaves behind: a failure and no change; or a confirmed row,
-- whose memo was read back, and no failure.
abbrev pub Checked : Rpc → ServiceRequest → Text → World → Result (Unit {0}) × World → Type 0
Checked rpc row signature w (r, w') =
    ((is_ok r ≡ false) × (w'.db ≡ w.db))
    ⊎ ((r ≡ ok tt)
        × ((c : ConfirmationResult) × IsVerified rpc row signature
            × (w'.db.requests ≡ confirmed_rows row c w.db.requests)))

module _ (env : Env) (rpc : Rpc) (row : ServiceRequest) (signature : Text) where
  get_memo_lem :
      (memo : Option Text) (w : World)
      → (get_memo rpc signature w).0 ≡ ok memo
      → (tx : Option Finalized) × (rpc.get_transaction w.tick signature ≡ ok tx)
        × (decode_memo rpc tx ≡ memo)
  unfolding get_memo
  get_memo_lem memo w h = ground arith

  mark_confirmed_lem :
      (c : ConfirmationResult) (memo : Option Text) (w : World)
      → ((is_ok (mark_confirmed env rpc row signature c memo w).0 ≡ false)
          × ((mark_confirmed env rpc row signature c memo w).1.db ≡ w.db))
        ⊎ (((mark_confirmed env rpc row signature c memo w).0 ≡ ok tt)
            × (memo ≡ some (expected_memo row))
            × ((mark_confirmed env rpc row signature c memo w).1.db.requests
                ≡ confirmed_rows row c w.db.requests))
  unfolding mark_confirmed
  mark_confirmed_lem c none w = ground arith
  mark_confirmed_lem c (some memo) w = ground (arith, text_eq_iff memo (expected_memo row))

  check_memo-Checked :
      (c : ConfirmationResult) (w : World)
      → Checked rpc row signature w (check_memo env rpc row signature c w)
  unfolding check_memo
  check_memo-Checked c w =
      >>=-inv (Checked rpc row signature w) (get_memo rpc signature) w
        (mark_confirmed env rpc row signature c)
        (λ memo h.
          let (tx, read, decoded) = get_memo_lem memo w h in
          let keeps = (get_memo-keeps rpc w signature).0 in
          elim (mark_confirmed_lem c memo (get_memo rpc signature w).1) [
            | inl (failed, same) ↦ inl (failed, same ∙ keeps)
            | inr (fine, found, rows) ↦ inr (
              fine,
              (
                c,
                record {
                  at_tick = w.tick;
                  answer = tx;
                  read_back = read;
                  same_memo = decoded ∙ found;
                },
                rows ∙ ap (λ (db : Db). confirmed_rows row c db.requests) keeps,
              ),
            )
          ])
        (λ r h k. inl (h, (get_memo-keeps rpc w signature).0))

  verify-Checked :
      (w : World) → Checked rpc row signature w (verify_and_confirm env rpc row signature w)
  unfolding verify_and_confirm
  verify-Checked w =
      >>=-inv (Checked rpc row signature w) (confirm rpc signature) w
        (check_memo env rpc row signature)
        (λ c h.
          let keeps = (confirm-keeps rpc w signature).0 in
          elim (check_memo-Checked c (confirm rpc signature w).1) [
            | inl (failed, same) ↦ inl (failed, same ∙ keeps)
            | inr (fine, (c', verified, rows)) ↦ inr (
              fine,
              (c', verified, rows ∙ ap (λ (db : Db). confirmed_rows row c' db.requests) keeps),
            )
          ])
        (λ r h k. inl (h, (confirm-keeps rpc w signature).0))

-- What a delivery of a claimed row leaves behind. It failed before a signature was on record; or a
-- fresh signature was put on record, after one transaction was sent, and was checked; or the
-- signature on record was checked.
pub data Delivered (rpc : Rpc) (row : ServiceRequest) (w : World) (r : Result (Unit {0}))
    (w' : World) : Type 0 where
  unsent :
      is_ok r ≡ false
      → w'.db ≡ w.db
      → (w'.sent ≡ w.sent) ⊎ ((l : ℕ) × (w'.sent ≡ sent_for row l ∷ w.sent))
      → Delivered rpc row w r w'
  fresh :
      (signature : Text) (l : ℕ) (mid : World)
      → row.tx_signature ≡ none
      → mid.db.requests ≡ signed row signature w.db.requests
      → w'.sent ≡ sent_for row l ∷ w.sent
      → Checked rpc row signature mid (r, w')
      → Delivered rpc row w r w'
  resumed :
      (signature : Text)
      → row.tx_signature ≡ some signature
      → w'.sent ≡ w.sent
      → Checked rpc row signature w (r, w')
      → Delivered rpc row w r w'

module _ (env : Env) (rpc : Rpc) (row : ServiceRequest) where
  send_and_persist-Attempted :
      (a : Adapter) (w : World) → Attempted row w (send_and_persist env rpc a row w)
  unfolding send_and_persist
  send_and_persist-Attempted a w =
      >>=-inv (Attempted row w) (get_rent_exempt_minimum rpc) w (send_with env rpc a row)
        (λ l h. ground (
          arith,
          rent-keeps rpc w,
          send_with-Attempted env rpc row a l (get_rent_exempt_minimum rpc w).1,
        ))
        (λ r h k. ground (arith, rent-keeps rpc w))

  on_record :
      (a : Adapter) (w : World)
      → row.tx_signature ≡ none
      → (signature : Text) → (send_and_persist env rpc a row w).0 ≡ ok signature
      → Attempted row w (send_and_persist env rpc a row w)
      → Delivered rpc row w
          (verify_and_confirm env rpc row signature (send_and_persist env rpc a row w).1).0
          (verify_and_confirm env rpc row signature (send_and_persist env rpc a row w).1).1
  on_record a w none_yet signature h (inl (failed, _, _)) = absurd (ground arith)
  on_record a w none_yet signature h (inr (inl (failed, _, _))) = absurd (ground arith)
  on_record a w none_yet signature h (inr (inr (s, e, rows, (l, sent)))) =
      let mid = (send_and_persist env rpc a row w).1 in
      fresh signature l mid none_yet (ground arith) (verify-sent env rpc row signature mid ∙ sent)
        (verify-Checked env rpc row signature mid)

  fresh-Delivered :
      (a : Adapter) (w : World)
      → row.tx_signature ≡ none
      → Delivered rpc row w
          ((send_and_persist env rpc a row >>= verify_and_confirm env rpc row) w).0
          ((send_and_persist env rpc a row >>= verify_and_confirm env rpc row) w).1
  fresh-Delivered a w none_yet =
      >>=-inv (λ r. Delivered rpc row w r.0 r.1) (send_and_persist env rpc a row) w
        (verify_and_confirm env rpc row)
        (λ signature h. on_record a w none_yet signature h (send_and_persist-Attempted a w))
        (λ r h k. elim (send_and_persist-Attempted a w) [
          | inl (_, same, sent) ↦ unsent h same (inl sent)
          | inr (inl (_, same, sent)) ↦ unsent h same (inr sent)
          | inr (inr (signature, e, _, _)) ↦ absurd (ground arith)
        ])

  deliver_with-Delivered :
      (a : Adapter) (w : World)
      → Delivered rpc row w (deliver_with env rpc row a w).0 (deliver_with env rpc row a w).1
  unfolding deliver_with signature_of
  deliver_with-Delivered a w = elim (Option-cases row.tx_signature) [
    | inl e ↦ simp e (fresh-Delivered a w e)
    | inr (signature, e) ↦ simp e (
        resumed signature e (verify-sent env rpc row signature w)
          (verify-Checked env rpc row signature w))
  ]

  pub process-Delivered :
      (w : World)
      → Delivered rpc row w
          (process_service_request env rpc row w).0
          (process_service_request env rpc row w).1
  unfolding process_service_request
  process-Delivered w =
      >>=-inv (λ r. Delivered rpc row w r.0 r.1) (get_solana_adapter rpc) w
        (deliver_with env rpc row) (λ a h. rw (adapter-keeps rpc w) (deliver_with-Delivered a w))
        (λ r h k.
          unsent h (ap (λ w. w.db) (adapter-keeps rpc w))
            (inl (ap (λ w. w.sent) (adapter-keeps rpc w))))
