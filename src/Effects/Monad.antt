-- ===== src/Effects/Monad.antt =====
-- Errors, results, the world, and the state monad with failure.
use eps_dapp.Base.{ℕ, ◌+◌, ◌≡◌, refl, ◌⊎◌, inl, inr, Bool, true, false, Option, List, ◌∷◌, Text}
use eps_dapp.RateLimit.Fixed
use eps_dapp.RateLimit.Lru
use eps_dapp.Db.{Db, Subscription, ServiceRequest}

-- Why an address is refused (`InvalidRecipientError.reason`).
pub data Reason : Type 0 where
  malformed off_curve : Reason

-- `ChainErrorCode` of lib/chain/ChainAdapter.ts.
pub data ChainErrorCode : Type 0 where
  not_implemented invalid_address broadcast_failed confirmation_failed forbidden_mainnet mismatch
        unknown :
      ChainErrorCode

-- The errors that the code throws or tells apart, and those of the libraries (`external`, with the
-- message). `record_not_found` and `unique_violation` are Prisma's P2025 and P2002.
pub data Error : Type 0 where
  quota_exceeded : Text → ℕ → Error
  no_active_subscription : Text → Error
  unknown_tier : Text → Text → Error
  memo_mismatch : Text → Text → Error
  invalid_recipient : Text → Reason → Error
  mainnet_forbidden : Error
  not_set : Text → Error
  record_not_found : Error
  unique_violation : Error
  bad_key_length : ℕ → Error
  storage_not_configured : Error
  live_key_refused : Error
  unauthorized no_organization forbidden : Error
  chain_error : ChainErrorCode → Error
  hedera_mainnet_refused : Error
  foreign_key_violation : Error
  external : Text → Error

-- A call returns, throws, or never comes back because the process dies.
pub data Result (A : Type 0) : Type 0 where
  ok : A → Result A
  err : Error → Result A
  crashed : Result A

-- A transaction that was handed to the cluster, whether or not its answer came back.
pub record Sent : Type 0 where
  pub recipient : Text
  pub lamports : ℕ
  pub memo : Text

-- What goes to the other services, whether or not their answers came back: a transaction of an EVM
-- chain (recipient, data), the steps on Hedera, and a mail (recipient, subject, body).
pub data Outgoing : Type 0 where
  evm_transaction : Text → Text → Outgoing
  hcs_message : Text → Text → Outgoing
  token_created : Outgoing
  nft_minted : Text → List ℕ → Outgoing
  account_created : Outgoing
  nft_transferred : Text → ℕ → Text → Outgoing
  mail : Text → Text → Text → Outgoing

-- A task that the code starts and does not wait for.
pub data Task : Type 0 where
  anchor : Text → Task
  transfer_nft : Text → Task
  first_access_alert : Text → Task

pub record World : Type 0 where
  pub db : Db
  pub tick : ℕ
  pub sent : List Sent
  pub tasks : List Task
  pub objects : List (Text × List ℕ)
  pub outbox : List Outgoing
  pub buckets : Fixed.Buckets
  pub lru_buckets : Lru.Buckets

-- What the environment decides at a tick. `first_subscription` and `first_request` are
-- `findFirst` with the `orderBy` of the code; a tie is the database's to break.
pub record Env : Type 0 where
  pub now : ℕ → ℕ
  pub fresh_id : ℕ → Text
  pub random_bytes : ℕ → ℕ → List ℕ
  pub answers : ℕ → Result (Unit {0})
  pub first_subscription : (Subscription → Bool) → List Subscription → Option Subscription
  pub first_request : (ServiceRequest → Bool) → List ServiceRequest → Option ServiceRequest

abbrev pub Action : Type 0 → Type 0
Action A = World → Result A × World

abbrev pub pure : {A : Type 0} → A → Action A
pure a w = (ok a, w)

abbrev pub throw : {A : Type 0} → Error → Action A
throw e w = (err e, w)

infixl 5 ◌>>=◌ ◌>>◌
abbrev pub ◌>>=◌ : {A B : Type 0} → Action A → (A → Action B) → Action B
◌>>=◌ m f w = elim (m w).0 [
  | ok a ↦ f a (m w).1
  | err e ↦ (err e, (m w).1)
  | crashed ↦ (crashed, (m w).1)
]

abbrev pub ◌>>◌ : {A B : Type 0} → Action A → Action B → Action B
◌>>◌ m k w = elim (m w).0 [
  | ok a ↦ k (m w).1
  | err e ↦ (err e, (m w).1)
  | crashed ↦ (crashed, (m w).1)
]

-- A call of a library: it takes a tick, and its answer is the environment's.
abbrev pub call : {A : Type 0} → (ℕ → Result A) → Action A
call f w = (f w.tick, record w { tick = w.tick + 1 })

-- `prisma.$transaction`: the tables are those from before if the body does not return. Every
-- statement of the body is one of the transaction's client: a body that used another client would
-- keep what that one wrote, and is not expressed.
abbrev pub transaction : {A : Type 0} → Action A → Action A
transaction m w = elim (m w).0 [
  | ok a ↦ (ok a, (m w).1)
  | err e ↦ (err e, record (m w).1 { db = w.db })
  | crashed ↦ (crashed, record (m w).1 { db = w.db })
]

-- `try { body } catch (err) { handler }`: a crash is not caught.
abbrev pub catch : {A : Type 0} → Action A → (Error → Action A) → Action A
catch m handler w = elim (m w).0 [
  | ok a ↦ (ok a, (m w).1)
  | err e ↦ handler e (m w).1
  | crashed ↦ (crashed, (m w).1)
]

-- A task that is not awaited.
abbrev pub spawn : Task → Action (Unit {0})
spawn t w = (ok tt, record w { tasks = t ∷ w.tasks })

abbrev pub is_ok : {A : Type 0} → Result A → Bool
is_ok (ok a) = true
is_ok (err e) = false
is_ok crashed = false

pub Result-cases :
    {A : Type 0} (r : Result A)
    → ((a : A) × (r ≡ ok a)) ⊎ ((e : Error) × (r ≡ err e)) ⊎ (r ≡ crashed)
Result-cases (ok a) = inl (a, refl)
Result-cases (err e) = inr (inl (e, refl))
Result-cases crashed = inr (inr refl)
