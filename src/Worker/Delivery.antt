-- ===== src/Worker/Delivery.antt =====
-- worker/process.ts: `processServiceRequest`, the delivery of a claimed request. Its two calls of
-- Hedera are not awaited: they are tasks (`Effects.Task`).
use eps_dapp.Base.{
  ℕ, ◌*◌, Bool, false, Option, none, some, [], ◌∷◌, if◌then◌else◌, or_else, Text, text_eq,
}
use eps_dapp.Db.{ServiceRequest, ServiceStatus, requests_table}
use eps_dapp.Effects.{
  Action, Env, ◌>>=◌, ◌>>◌, pure, throw, update, spawn, anchor, transfer_nft, memo_mismatch,
}
use eps_dapp.Memo.{build_service_memo}
use eps_dapp.Solana.{
  Rpc, Adapter, DeliverParams, ConfirmationResult, get_solana_adapter, get_rent_exempt_minimum,
  send, confirm, get_memo,
}
use eps_dapp.Failure.{has_request_id}

-- The memo of a request: a missing digest or token is the empty text.
unfoldable pub expected_memo : ServiceRequest → Text
unfolding build_service_memo
expected_memo row = build_service_memo (record {
  sha256 = or_else row.document_sha256 [];
  notice_token = or_else row.notice_token [];
  service_id = row.id;
})

abbrev pub delivery : ℕ → ServiceRequest → DeliverParams
delivery lamports row = record {
  recipient_wallet = row.recipient_wallet;
  lamports = lamports;
  memo_parts = expected_memo row ∷ [];
}

-- `onChainMemo === expectedMemo`, false for null.
abbrev pub is_memo_of : Text → Option Text → Bool
is_memo_of expected none = false
is_memo_of expected (some memo) = text_eq memo expected

abbrev pub with_signature : Text → ServiceRequest → ServiceRequest
with_signature signature r = record r { tx_signature = some signature }

abbrev pub confirmed_at : ConfirmationResult → ServiceRequest → ServiceRequest
confirmed_at c r = record r {
  status = ServiceStatus.confirmed;
  slot = some c.slot;
  block_time = elim c.block_time [ none ↦ none | some t ↦ some (t * 1000) ];
}

module _ (env : Env) (rpc : Rpc) where
  -- The signature goes to the row before anything is confirmed.
  unfoldable pub persist_signature : ServiceRequest → Text → Action Text
  persist_signature row signature = do
    update env requests_table (has_request_id row.id) (with_signature signature)
    pure signature

  unfoldable pub send_with : Adapter → ServiceRequest → ℕ → Action Text
  send_with adapter row lamports =
      send rpc adapter (delivery lamports row) >>= persist_signature row

  -- The fresh attempt.
  unfoldable pub send_and_persist : Adapter → ServiceRequest → Action Text
  send_and_persist adapter row = get_rent_exempt_minimum rpc >>= send_with adapter row

  -- `signature === null`: only then is anything sent.
  unfoldable pub signature_of : Adapter → ServiceRequest → Option Text → Action Text
  signature_of adapter row none = send_and_persist adapter row
  signature_of adapter row (some signature) = pure signature

  -- The row is confirmed only if the memo that was read back is the one that was meant.
  unfoldable pub mark_confirmed :
      ServiceRequest → Text → ConfirmationResult → Option Text → Action (Unit {0})
  mark_confirmed row signature c on_chain =
      if is_memo_of (expected_memo row) on_chain
      then (update env requests_table (has_request_id row.id) (confirmed_at c)
          >> spawn (anchor row.id)
          >> spawn (transfer_nft row.id))
      else throw (memo_mismatch row.id signature)

  unfoldable pub check_memo : ServiceRequest → Text → ConfirmationResult → Action (Unit {0})
  check_memo row signature c = get_memo rpc signature >>= mark_confirmed row signature c

  unfoldable pub verify_and_confirm : ServiceRequest → Text → Action (Unit {0})
  verify_and_confirm row signature = confirm rpc signature >>= check_memo row signature

  unfoldable pub deliver_with : ServiceRequest → Adapter → Action (Unit {0})
  deliver_with row adapter = signature_of adapter row row.tx_signature >>= verify_and_confirm row

  unfoldable pub process_service_request : ServiceRequest → Action (Unit {0})
  process_service_request row = get_solana_adapter rpc >>= deliver_with row
