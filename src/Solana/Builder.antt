-- ===== src/Solana/Builder.antt =====
-- lib/chain/tx-builder.ts: `buildServiceTx`, which assembles the transaction of a delivery.
use eps_dapp.Base.{
  ℕ, ◌+◌, ◌≡◌, true, List, [], ◌∷◌, ◌++◌, arith, if◌then◌else◌, Text, codes, Bool-cases, inl, inr,
}
use eps_dapp.Effects.{World, Action, ok, ◌>>=◌, pure, throw, call, external, Result-cases}
use eps_dapp.Memo.{ServiceMemoFields, build_service_memo}
use eps_dapp.Solana.Cluster.{Rpc}

-- A transfer and a memo that the sender signs. A keypair is the key that signs with it.
pub record ServiceTx : Type 0 where
  pub from_pubkey : List ℕ
  pub to_pubkey : List ℕ
  pub lamports : ℕ
  pub memo : Text
  pub memo_signers : List (List ℕ)
  pub fee_payer : List ℕ

abbrev pub service_tx : List ℕ → List ℕ → ServiceMemoFields → ℕ → ServiceTx
service_tx from recipient m lamports = record {
  from_pubkey = from;
  to_pubkey = recipient;
  lamports = lamports;
  memo = build_service_memo m;
  memo_signers = from ∷ [];
  fee_payer = from;
}

module _ (rpc : Rpc) (to_base58 : List ℕ → Text) where
  -- `buildServiceTx(params)`.
  unfoldable pub build_service_tx : List ℕ → List ℕ → ServiceMemoFields → Action ServiceTx
  build_service_tx from recipient m =
      if rpc.is_on_curve recipient
      then (call rpc.rent_minimum >>= λ lamports. pure (service_tx from recipient m lamports))
      else throw (
          external (
            codes "Invalid recipient '"
            ++ to_base58 recipient
            ++ codes "': key is off-curve (e.g. a PDA) and cannot hold a signable balance."))

  -- A transaction that is built pays a recipient that can sign, the least balance that needs no
  -- rent, and carries the memo of the fields; nothing is sent and no table changes.
  pub build_service_tx_lem :
      (from recipient : List ℕ) (m : ServiceMemoFields) (w : World) (tx : ServiceTx)
      → (build_service_tx from recipient m w).0 ≡ ok tx
      → (rpc.is_on_curve recipient ≡ true)
        × (tx.to_pubkey ≡ recipient)
        × (rpc.rent_minimum w.tick ≡ ok tx.lamports)
        × (tx.memo ≡ build_service_memo m)
        × ((build_service_tx from recipient m w).1 ≡ record w { tick = w.tick + 1 })
  unfolding build_service_tx
  build_service_tx_lem from recipient m w tx e = elim (Bool-cases (rpc.is_on_curve recipient)) [
    | inl k ↦ elim (Result-cases (rpc.rent_minimum w.tick)) [
      | inl (lamports, r) ↦ ground (arith, e, k, r)
      | inr other ↦ absurd (ground (arith, e, k, other))
    ]
    | inr k ↦ absurd (ground (arith, e, k))
  ]
