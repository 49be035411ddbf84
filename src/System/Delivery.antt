-- ===== src/System/Delivery.antt =====
-- worker/index.ts and worker/process.ts: the worker takes each request along its life cycle.
use mathlib.Core.List.{Memᴰ}
use eps_dapp.Base.{
  mem-update_where, ◌≡◌, refl, ap, sym, subst, false, none, arith, Text, inl, inr, update_where,
  text_eq_refl,
}
use eps_dapp.Db.{Db, ServiceRequest, ServiceStatus}
use eps_dapp.Effects.{World, Result, is_ok}
use eps_dapp.Failure.{has_request_id, parked}
use eps_dapp.Solana.{Rpc, ConfirmationResult}
use eps_dapp.Worker.{
  expected_memo, with_signature, confirmed_at, Delivered, unsent, fresh, resumed, Checked,
}
use eps_dapp.Lifecycle.{
  deliver, give_up, Reaches, here, onward, Advances, UniqueIds, Follows, Follows-Evolved,
  mem-Follows, Evolved, same-Evolved, Evolved-trans,
}

-- The row is in the table, taken up.
abbrev pub Taken : ServiceRequest → Db → Type 0
Taken row db = Memᴰ row db.requests × (row.status ≡ ServiceStatus.in_progress)

-- The one request under the id of a row that is taken up, after an update.
pub Taken-Evolved :
    (f : ServiceRequest → ServiceRequest) (row : ServiceRequest) (before after : Db)
    → UniqueIds before
    → Taken row before
    → Advances row (f row)
    → after.requests ≡ update_where (has_request_id row.id) f before.requests
    → Evolved before after
Taken-Evolved f row before after unique (there, _) goes_on e =
    Follows-Evolved before after unique
      (subst (Follows before.requests) (sym e) (mem-Follows f before row unique there goes_on))

signed-Advances :
    (signature : Text) (row : ServiceRequest)
    → row.tx_signature ≡ none
    → Advances row (with_signature signature row)
signed-Advances signature row e = record {
  same_terms = refl;
  reached = here;
  keeps_signature = λ s k. absurd (ground arith);
}

confirmed-Advances :
    (c : ConfirmationResult) (row : ServiceRequest)
    → row.status ≡ ServiceStatus.in_progress
    → Advances row (confirmed_at c row)
confirmed-Advances c row e = record {
  same_terms = refl;
  reached = subst (λ s. Reaches s ServiceStatus.confirmed) (sym e) (onward deliver here);
  keeps_signature = λ s k. k;
}

pub parked-Advances :
    (reason : Text) (row : ServiceRequest)
    → row.status ≡ ServiceStatus.in_progress
    → Advances row (parked reason row)
parked-Advances reason row e = record {
  same_terms = refl;
  reached = subst (λ s. Reaches s ServiceStatus.failed) (sym e) (onward give_up here);
  keeps_signature = λ s k. k;
}

-- The requests have gone on, and if the action failed, one under the id is still taken up.
abbrev pub Attempt : Text → Db → Result (Unit {0}) × World → Type 0
Attempt id before (r, w') =
    Evolved before w'.db
    × (is_ok r ≡ false → (row : ServiceRequest) × (row.id ≡ id) × Taken row w'.db)

Checked-Attempt :
    (rpc : Rpc) (row : ServiceRequest) (signature : Text) (w w' : World) (r : Result (Unit {0}))
    → UniqueIds w.db
    → Taken row w.db
    → Checked rpc row signature w (r, w')
    → Attempt row.id w.db (r, w')
Checked-Attempt rpc row signature w w' r unique taken (inl (failed, same)) = (
  same-Evolved w.db w'.db unique (ap (λ (db : Db). db.requests) same),
  λ _. (row, refl, subst (Taken row) (sym same) taken),
)
Checked-Attempt rpc row signature w w' r unique taken (inr (fine, (c, _, rows))) = (
  Taken-Evolved (confirmed_at c) row w.db w'.db unique taken (confirmed-Advances c row taken.1)
      rows,
  λ failed. absurd (ground (arith, fine, failed)),
)

-- The signature is not part of the memo that is checked.
signed-Checked :
    (rpc : Rpc) (row : ServiceRequest) (signature : Text) (w : World)
    (r : Result (Unit {0}) × World)
    → Checked rpc row signature w r
    → Checked rpc (with_signature signature row) signature w r
unfolding expected_memo
signed-Checked rpc row signature w r (inl same) = inl same
signed-Checked rpc row signature w r (inr (fine, (c, v, rows))) = inr (
  fine,
  (
    c,
    record {
      at_tick = v.at_tick;
      answer = v.answer;
      read_back = v.read_back;
      same_memo = v.same_memo;
    },
    rows,
  ),
)

pub Delivered-Attempt :
    (rpc : Rpc) (row : ServiceRequest) (w w' : World) (r : Result (Unit {0}))
    → UniqueIds w.db
    → Taken row w.db
    → Delivered rpc row w r w'
    → Attempt row.id w.db (r, w')
Delivered-Attempt rpc row w w' r unique taken (unsent failed same _) = (
  same-Evolved w.db w'.db unique (ap (λ (db : Db). db.requests) same),
  λ _. (row, refl, subst (Taken row) (sym same) taken),
)
Delivered-Attempt rpc row w w' r unique taken (fresh signature l mid unsigned rows _ checked) =
    let signed_row = with_signature signature row in
    let so_far =
      Taken-Evolved (with_signature signature) row w.db mid.db unique taken
        (signed-Advances signature row unsigned) rows in
    let still : Taken signed_row mid.db = (
      subst (Memᴰ signed_row) (sym rows) (
          mem-update_where (has_request_id row.id) (with_signature signature) w.db.requests row
            taken.0 (text_eq_refl row.id)),
      taken.1,
    ) in
    let (later, failing) =
      Checked-Attempt rpc signed_row signature mid w' r so_far.unique still
        (signed-Checked rpc row signature mid (r, w') checked) in
    (Evolved-trans so_far later, failing)
Delivered-Attempt rpc row w w' r unique taken (resumed signature _ _ checked) =
    Checked-Attempt rpc row signature w w' r unique taken checked
