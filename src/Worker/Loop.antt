-- ===== src/Worker/Loop.antt =====
-- worker/index.ts: `claimNext`, `runOnce`, `drain`, `pollForever` and `main`, with the production collaborators of
-- `defaultDeps`. The worker's log lines are left out.
use eps_dapp.Base.{
  ℕ, zero, suc, ◌+◌, Bool, true, false, ◌&&◌, Option, none, some, ltb, if◌then◌else◌, Text,
}
use eps_dapp.Db.{ServiceRequest, ServiceStatus, requests_table}
use eps_dapp.Effects.{Action, Error, Env, ◌>>=◌, ◌>>◌, pure, find_first_request, catch, update_many}
use eps_dapp.Solana.{Rpc}
use eps_dapp.Variables.{Variables, is_set_to}
use eps_dapp.Failure.{FailServiceRequestInput, has_request_id, fail_service_request}
use eps_dapp.Worker.Delivery.{process_service_request}

-- `CLAIMABLE`.
abbrev pub is_claimable : ServiceStatus → Bool
is_claimable ServiceStatus.staged = true
is_claimable ServiceStatus.in_progress = true
is_claimable _ = false

abbrev pub claimable : ServiceRequest → Bool
claimable r = is_claimable r.status

abbrev pub in_progress : ServiceRequest → ServiceRequest
in_progress r = record r { status = ServiceStatus.in_progress }

module _ (env : Env) where
  -- The second statement of a claim: the row is taken if it is claimable still.
  unfoldable pub take_candidate : Option ServiceRequest → Action (Option ServiceRequest)
  take_candidate none = pure none
  take_candidate (some candidate) = do
    taken ←
        update_many env requests_table (λ r. has_request_id candidate.id r && claimable r)
          in_progress
    pure (if ltb 0 taken then some (in_progress candidate) else none)

  unfoldable pub claim_next : Action (Option ServiceRequest)
  claim_next = do candidate ← find_first_request env claimable; take_candidate candidate

-- What `defaultDeps.fail` records of a claimed row: `message` is `err.message`.
abbrev pub failure_of : (Error → Text) → ServiceRequest → Error → FailServiceRequestInput
failure_of message row e = record {
  service_request_id = row.id;
  org_id = row.org_id;
  reason = message e;
  tx_signature = row.tx_signature;
}

module _ (env : Env) (rpc : Rpc) (message : Error → Text) where
  unfoldable pub record_failure : ServiceRequest → Error → Action (Unit {0})
  record_failure row e = fail_service_request env (failure_of message row e) >> pure tt

  unfoldable pub deliver_or_fail : ServiceRequest → Action (Unit {0})
  deliver_or_fail row = catch (process_service_request env rpc row) (record_failure row)

  unfoldable pub run_claimed : Option ServiceRequest → Action Bool
  run_claimed none = pure false
  run_claimed (some row) = deliver_or_fail row >> pure true

  unfoldable pub run_once : Action Bool
  run_once = do claimed ← claim_next env; run_claimed claimed

  -- `drain` with fuel: `none` if it runs out. What is not read is not run.
  unfoldable pub drain : ℕ → ℕ → Action (Option ℕ)
  drain zero processed = pure none
  drain (suc fuel) processed = do
    more ← run_once
    elim more [ true ↦ drain fuel (processed + 1) | false ↦ pure (some processed) ]

  -- One round of `pollForever`: an error does not stop the loop. The pause changes nothing.
  unfoldable pub poll_tick : Action (Unit {0})
  poll_tick = catch (run_once >> pure tt) (λ e. pure tt)

  -- `pollForever`, which runs until the process is signalled, after a number of rounds.
  unfoldable pub poll_forever : ℕ → Action (Unit {0})
  poll_forever zero = pure tt
  poll_forever (suc rounds) = poll_tick >> poll_forever rounds

  -- `main`: with DRAIN_AND_EXIT it drains the backlog, and polls otherwise. The fuel of the drain is
  -- the number of rounds of the loop.
  unfoldable pub main : Variables → ℕ → Action (Unit {0})
  unfolding is_set_to
  main vars rounds =
      if is_set_to vars "DRAIN_AND_EXIT" "1"
      then (drain rounds 0 >> pure tt)
      else poll_forever rounds
