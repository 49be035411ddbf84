-- ===== src/Worker/Settle.antt =====
-- worker/index.ts: what a run does to the count of pending requests.
use eps_dapp.Base.{
  ◌≤◌, ◌<◌, ◌≡◌, refl, ap, ◌∙◌, ◌⊎◌, inl, inr, Bool, true, false, Option, List, arith, Text, count,
  count-update_where_same, count-update_where-le, count-update_where-lt,
}
use eps_dapp.Db.{ServiceRequest, Db}
use eps_dapp.Effects.{World, Env, Error, Result, pure, ok, is_ok, >>=-inv, catch-inv}
use eps_dapp.Quota.{Restored}
use eps_dapp.Solana.{Rpc, ConfirmationResult}
use eps_dapp.Failure.{
  FailServiceRequestInput, has_request_id, Failed, fail-Failed, fail_service_request, parked,
  stored_reason,
}
use eps_dapp.Worker.Delivery.{process_service_request, with_signature, confirmed_at}
use eps_dapp.Worker.Loop.{claimable, failure_of, record_failure, deliver_or_fail}
use eps_dapp.Worker.Process.{signed}
use eps_dapp.Worker.Confirm.{
  Delivered, unsent, fresh, resumed, Checked, confirmed_rows, process-Delivered,
}
use eps_dapp.Worker.Claim.{pending, is_open, open_rows}

-- The counts of two states of the tables are the same, or fewer requests are pending.
abbrev pub Progress : Bool → Text → Db → Db → Type 0
Progress returned id before after =
    ((returned ≡ false)
      × (pending after ≡ pending before)
      × (open_rows id after ≡ open_rows id before))
    ⊎ (0 < open_rows id before → pending after < pending before) × (pending after ≤ pending before)

confirmed-lt :
    (row : ServiceRequest) (c : ConfirmationResult) (rows : List ServiceRequest)
    → 0 < count (is_open row.id) rows
    → count claimable (confirmed_rows row c rows) < count claimable rows
confirmed-lt row c rows =
    count-update_where-lt (has_request_id row.id) claimable (confirmed_at c) rows (λ r e. refl)

confirmed-le :
    (row : ServiceRequest) (c : ConfirmationResult) (rows : List ServiceRequest)
    → count claimable (confirmed_rows row c rows) ≤ count claimable rows
confirmed-le row c rows =
    count-update_where-le (has_request_id row.id) claimable (confirmed_at c) rows (λ r e. refl)

Checked-Progress :
    (rpc : Rpc) (row : ServiceRequest) (signature : Text) (w w' : World) (r : Result (Unit {0}))
    → Checked rpc row signature w (r, w')
    → Progress (is_ok r) row.id w.db w'.db
Checked-Progress rpc row signature w w' r (inl (failed, same)) =
    inl (failed, ap pending same, ap (open_rows row.id) same)
Checked-Progress rpc row signature w w' r (inr (_, (c, v, rows))) =
    let e = ap (count claimable) rows in
    inr (
      λ room. ground (arith, e, confirmed-lt row c w.db.requests room),
      ground (arith, e, confirmed-le row c w.db.requests),
    )

signed-pending :
    (row : ServiceRequest) (signature : Text) (before after : Db)
    → after.requests ≡ signed row signature before.requests
    → (pending after ≡ pending before) × (open_rows row.id after ≡ open_rows row.id before)
signed-pending row signature before after e = (
  ap (count claimable) e
      ∙ count-update_where_same (has_request_id row.id) claimable (with_signature signature)
          before.requests (λ r k. refl),
  ap (count (is_open row.id)) e
      ∙ count-update_where_same (has_request_id row.id) (is_open row.id) (with_signature signature)
          before.requests (λ r k. refl),
)

Delivered-Progress :
    (rpc : Rpc) (row : ServiceRequest) (w w' : World) (r : Result (Unit {0}))
    → Delivered rpc row w r w'
    → Progress (is_ok r) row.id w.db w'.db
Delivered-Progress rpc row w w' r (unsent failed same _) =
    inl (failed, ap pending same, ap (open_rows row.id) same)
Delivered-Progress rpc row w w' r (fresh signature l mid _ rows _ checked) = ground (
  arith,
  signed-pending row signature w.db mid.db rows,
  Checked-Progress rpc row signature mid w' r checked,
)
Delivered-Progress rpc row w w' r (resumed signature _ _ checked) =
    Checked-Progress rpc row signature w w' r checked

pub Restored-requests :
    (env : Env) (org : Option Text) (before after : Db) (answer : Bool)
    → Restored env org before after answer
    → after.requests ≡ before.requests
Restored-requests env org before after answer (inl (_, same)) = ap (λ (db : Db). db.requests) same
Restored-requests env org before after answer (inr (s, _, _, _, same)) =
    ap (λ (db : Db). db.requests) same

-- A failure that is recorded: no request under the id is pending.
Failed-Progress :
    (env : Env) (input : FailServiceRequestInput) (before after : Db) (answer : Bool)
    → Failed env input before after answer
    → Progress true input.service_request_id before after
Failed-Progress env input before after answer (mid, restored, (_, e)) =
    let parks = ap (count claimable) (
      ap (λ (db : Db). db.requests) e ∙ Restored-requests env input.org_id _ mid answer restored) in
    let park = parked (stored_reason input) in
    inr (
      λ room. ground (
        arith,
        parks,
        count-update_where-lt (has_request_id input.service_request_id) claimable park
            before.requests (λ r k. refl) room,
      ),
      ground (
        arith,
        parks,
        count-update_where-le (has_request_id input.service_request_id) claimable park
            before.requests (λ r k. refl),
      ),
    )

module _ (env : Env) (rpc : Rpc) (message : Error → Text) (row : ServiceRequest) where
  record_failure-Progress :
      (e : Error) (w : World)
      → (record_failure env rpc message row e w).0 ≡ ok tt
      → Progress true row.id w.db (record_failure env rpc message row e w).1.db
  unfolding record_failure
  record_failure-Progress e w =
      >>=-inv (λ r. r.0 ≡ ok tt → Progress true row.id w.db r.1.db)
        (fail_service_request env (failure_of message row e)) w (λ answer. pure tt)
        (λ answer h k.
          Failed-Progress env (failure_of message row e) w.db _ answer
            (fail-Failed env (failure_of message row e) answer w h))
        (λ r h k f. absurd (ground arith))

  -- A claimed request, once its run returns, is no longer pending.
  pub deliver_or_fail-lt :
      (w : World)
      → (deliver_or_fail env rpc message row w).0 ≡ ok tt
      → 0 < open_rows row.id w.db
      → pending (deliver_or_fail env rpc message row w).1.db < pending w.db
  unfolding deliver_or_fail
  deliver_or_fail-lt w h room =
      let delivered = Delivered-Progress rpc row w _ _ (process-Delivered env rpc row w) in
      catch-inv (λ r. r.0 ≡ ok tt → pending r.1.db < pending w.db)
        (process_service_request env rpc row) (record_failure env rpc message row) w
        (λ a e k. ground (arith, delivered))
        (λ e k l. ground (arith, delivered, record_failure-Progress e _ l))
        (λ k. absurd (ground arith)) h
