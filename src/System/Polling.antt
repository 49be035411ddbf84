-- ===== src/System/Polling.antt =====
-- worker/index.ts: `runOnce`, `drain`, `pollForever` and `main` take each request along its life
-- cycle.
use eps_dapp.Base.{
  ℕ, zero, suc, ◌+◌, ◌≡◌, ◌⊎◌, refl, Bool, true, false, Option, none, some, arith, Text, Bool-cases,
  inl, inr,
}
use eps_dapp.Db.{ServiceRequest}
use eps_dapp.Effects.{World, Env, Error, Action, ok, crashed, ◌>>◌, pure, >>=-inv, catch-inv}
use eps_dapp.Solana.{Rpc}
use eps_dapp.Variables.{Variables, is_set_to}
use eps_dapp.Worker.{
  FindsRequest, claim_next, deliver_or_fail, run_claimed, run_once, drain, poll_tick, poll_forever,
  main,
}
use eps_dapp.Lifecycle.{UniqueIds, Evolved, Evolved-trans}
use eps_dapp.System.Delivery.{Taken}
use eps_dapp.System.Claiming.{claim-Evolves, claim-Taken, deliver-Evolved}
use eps_dapp.System.Rules.{Evolves, Keeps-Evolves, catch-Evolves, >>=-Evolves}

module _ (env : Env) (finds : FindsRequest env) (rpc : Rpc) (message : Error → Text) where
  claimed-Evolved :
      (claimed : Option ServiceRequest) (w : World)
      → UniqueIds w.db
      → ((row : ServiceRequest) → claimed ≡ some row → Taken row w.db)
      → Evolved w.db (run_claimed env rpc message claimed w).1.db
  unfolding run_claimed
  claimed-Evolved none w unique taken = Keeps-Evolves (pure false) (λ w. refl) w unique
  claimed-Evolved (some row) w unique taken =
      let so_far = deliver-Evolved env finds rpc message row w unique (taken row refl) in
      >>=-inv (λ r. Evolved w.db r.1.db) (deliver_or_fail env rpc message row) w (λ _. pure true)
        (λ a k. so_far) (λ r h k. so_far)

  -- A run of the worker, whatever comes of it, takes each request along its life cycle. Ids are
  -- unique, and `findFirst` finds a row that it is asked for.
  pub run_once-Evolves : Evolves (run_once env rpc message)
  unfolding run_once
  run_once-Evolves w unique =
      let so_far = claim-Evolves env w unique in
      >>=-inv (λ r. Evolved w.db r.1.db) (claim_next env) w (run_claimed env rpc message)
        (λ claimed h. Evolved-trans so_far (
          claimed-Evolved claimed (claim_next env w).1 so_far.unique
            (λ row e. claim-Taken env finds row w (ground (arith, h, e)))))
        (λ r h k. so_far)

  abbrev go_on : ℕ → ℕ → Bool → Action (Option ℕ)
  go_on fuel processed true = drain env rpc message fuel (processed + 1)
  go_on fuel processed false = pure (some processed)

  go_on-Evolves :
      (fuel processed : ℕ) (more : Bool)
      → Evolves (drain env rpc message fuel (processed + 1))
      → Evolves (go_on fuel processed more)
  go_on-Evolves fuel processed true next_ones = next_ones
  go_on-Evolves fuel processed false next_ones = Keeps-Evolves (pure (some processed)) (λ w. refl)

  pub drain-Evolves : (fuel processed : ℕ) → Evolves (drain env rpc message fuel processed)
  unfolding drain
  drain-Evolves zero processed = Keeps-Evolves {A = Option ℕ} (pure none) (λ w. refl)
  drain-Evolves (suc fuel) processed =
      >>=-Evolves (run_once env rpc message) (go_on fuel processed) run_once-Evolves
        (λ more. go_on-Evolves fuel processed more (drain-Evolves fuel (processed + 1)))

  poll_tick-Evolves : Evolves (poll_tick env rpc message)
  unfolding poll_tick
  poll_tick-Evolves =
      catch-Evolves (run_once env rpc message >> pure tt) (λ e. pure tt)
        (>>=-Evolves (run_once env rpc message) (λ _. pure tt) run_once-Evolves
          (λ _. Keeps-Evolves (pure tt) (λ w. refl)))
        (λ e. Keeps-Evolves (pure tt) (λ w. refl))

  pub poll-Evolves : (rounds : ℕ) → Evolves (poll_forever env rpc message rounds)
  unfolding poll_forever
  poll-Evolves zero = Keeps-Evolves (pure tt) (λ w. refl)
  poll-Evolves (suc rounds) =
      >>=-Evolves (poll_tick env rpc message) (λ _. poll_forever env rpc message rounds)
        poll_tick-Evolves (λ _. poll-Evolves rounds)

  pub main-Evolves : (vars : Variables) (rounds : ℕ) → Evolves (main env rpc message vars rounds)
  unfolding main
  main-Evolves vars rounds w unique = elim (Bool-cases (is_set_to vars "DRAIN_AND_EXIT" "1")) [
    | inl e ↦ simp e (
        >>=-Evolves (drain env rpc message rounds 0) (λ _. pure tt) (drain-Evolves rounds 0)
          (λ _. Keeps-Evolves (pure tt) (λ w. refl)) w unique)
    | inr e ↦ simp e (poll-Evolves rounds w unique)
  ]

module _ (env : Env) (rpc : Rpc) (message : Error → Text) where
  poll_tick_lem :
      (w : World)
      → ((poll_tick env rpc message w).0 ≡ ok tt) ⊎ ((poll_tick env rpc message w).0 ≡ crashed)
  unfolding poll_tick
  poll_tick_lem w =
      catch-inv (λ r. (r.0 ≡ ok tt) ⊎ (r.0 ≡ crashed)) (run_once env rpc message >> pure tt)
        (λ e. pure tt) w (λ a h. inl refl) (λ e h. inl refl) (λ h. inr refl)

  -- No error stops the polling: it comes through all its rounds, unless the process dies.
  pub poll_survives :
      (rounds : ℕ) (w : World)
      → ((poll_forever env rpc message rounds w).0 ≡ ok tt)
        ⊎ ((poll_forever env rpc message rounds w).0 ≡ crashed)
  unfolding poll_forever
  poll_survives zero w = inl refl
  poll_survives (suc rounds) w =
      ground (arith, poll_tick_lem w, poll_survives rounds (poll_tick env rpc message w).1)
