-- ===== src/Worker/Drain.antt =====
-- worker/index.ts: how `runOnce` and `drain` end.
use eps_dapp.Base.{ℕ, ◌+◌, ◌≤◌, ◌<◌, ◌≡◌, refl, Bool, true, false, Option, none, some, arith, Text}
use eps_dapp.Db.{ServiceRequest, Db}
use eps_dapp.Effects.{World, Env, Error, Action, ok, pure, >>=-inv}
use eps_dapp.Solana.{Rpc}
use eps_dapp.Worker.Loop.{claim_next, deliver_or_fail, run_claimed, run_once, drain}
use eps_dapp.Worker.Claim.{FindsRequest, pending, Claimed, claim-Claimed}
use eps_dapp.Worker.Settle.{deliver_or_fail-lt}

-- What a run that returns has done: it settled a request, or none was pending.
abbrev pub Ran : Bool → Db → Db → Type 0
Ran true before after = pending after < pending before
Ran false before after = (pending before ≡ 0) × (after ≡ before)

-- What a drain that returns has done.
abbrev pub Drained : ℕ → Db → Option ℕ → Db → Type 0
Drained processed before answer after =
    (total : ℕ) × (answer ≡ some total)
    × (pending after ≡ 0)
    × (processed ≤ total)
    × (total ≤ processed + pending before)

module _ (env : Env) (finds : FindsRequest env) (rpc : Rpc) (message : Error → Text) where
  settled-Ran :
      (before : Db) (w : World) (said more : Bool)
      → pending w.db < pending before
      → said ≡ true
      → said ≡ more
      → Ran more before w.db
  settled-Ran before w said true lt e f = lt
  settled-Ran before w said false lt e f = absurd (ground arith)

  run_claimed-Ran :
      (before : Db) (claimed : Option ServiceRequest) (w : World) (more : Bool)
      → Claimed claimed before w.db
      → (run_claimed env rpc message claimed w).0 ≡ ok more
      → Ran more before (run_claimed env rpc message claimed w).1.db
  unfolding run_claimed
  run_claimed-Ran before none w true h k = absurd (ground arith)
  run_claimed-Ran before none w false h k = h
  run_claimed-Ran before (some row) w more h k =
      >>=-inv (λ r. r.0 ≡ ok more → Ran more before r.1.db) (deliver_or_fail env rpc message row) w
        (λ _. pure true)
        (λ _ e k.
          settled-Ran before (deliver_or_fail env rpc message row w).1 true more
            (ground (arith, h, deliver_or_fail-lt env rpc message row w e)) refl (ground arith))
        (λ r k l f. absurd (ground arith)) k

  -- A run of the worker that returns settles one of the pending requests, or says that there is
  -- none.
  pub run_once-Ran :
      (w : World) (more : Bool)
      → (run_once env rpc message w).0 ≡ ok more
      → Ran more w.db (run_once env rpc message w).1.db
  unfolding run_once
  run_once-Ran w more =
      >>=-inv (λ r. r.0 ≡ ok more → Ran more w.db r.1.db) (claim_next env) w
        (run_claimed env rpc message)
        (λ claimed h.
          run_claimed-Ran w.db claimed (claim_next env w).1 more
            (claim-Claimed env finds w claimed h))
        (λ r h k f. absurd (ground arith))

  abbrev go_on : ℕ → ℕ → Bool → Action (Option ℕ)
  go_on fuel processed true = drain env rpc message fuel (processed + 1)
  go_on fuel processed false = pure (some processed)

  abbrev Ends : ℕ → Type 0
  Ends fuel =
      (processed : ℕ) (w : World) (answer : Option ℕ)
      → pending w.db < fuel
      → (drain env rpc message fuel processed w).0 ≡ ok answer
      → Drained processed w.db answer (drain env rpc message fuel processed w).1.db
