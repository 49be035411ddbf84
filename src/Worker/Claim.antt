-- ===== src/Worker/Claim.antt =====
-- worker/index.ts: what `claimNext` takes, and what two pollers take.
use mathlib.Core.List.{Memᴰ}
use eps_dapp.Base.{
  ℕ, ◌<◌, ◌≡◌, refl, ap, sym, subst, ◌∙◌, Bool, true, ◌&&◌, Option, none, some, List, arith, Text,
  text_eq_refl, update_where, count, count-pos-of_mem, count-update_where_same,
}
use eps_dapp.Db.{ServiceRequest, Db}
use eps_dapp.Effects.{World, Env, ok, >>=-inv, find_first_request}
use eps_dapp.Failure.{has_request_id}
use eps_dapp.Worker.Loop.{claimable, in_progress, take_candidate, claim_next}

-- `findFirst` with `orderBy: { createdAt: "asc" }`: a row of the table that meets the condition;
-- and nothing only if no row meets it.
pub record FindsRequest (env : Env) : Type 0 where
  pub request_mem :
      (p : ServiceRequest → Bool) (rows : List ServiceRequest) (r : ServiceRequest)
      → env.first_request p rows ≡ some r
      → Memᴰ r rows
  pub request_meets :
      (p : ServiceRequest → Bool) (rows : List ServiceRequest) (r : ServiceRequest)
      → env.first_request p rows ≡ some r
      → p r ≡ true
  pub request_missing :
      (p : ServiceRequest → Bool) (rows : List ServiceRequest)
      → env.first_request p rows ≡ none
      → count p rows ≡ 0

-- The requests that a worker can still claim: all, and those under an id.
abbrev pub pending : Db → ℕ
pending db = count claimable db.requests

abbrev pub is_open : Text → ServiceRequest → Bool
is_open id r = has_request_id id r && claimable r

abbrev pub open_rows : Text → Db → ℕ
open_rows id db = count (is_open id) db.requests

module _ (env : Env) (candidate : ServiceRequest) where
  take_lem :
      (w : World) (claimed : Option ServiceRequest)
      → (take_candidate env (some candidate) w).0 ≡ ok claimed
      → ((take_candidate env (some candidate) w).1.db.requests
          ≡ update_where (is_open candidate.id) in_progress w.db.requests)
        × (0 < open_rows candidate.id w.db → claimed ≡ some (in_progress candidate))
  unfolding take_candidate
  take_lem w claimed h = ground arith

  -- Taking a row leaves it open: the counts stay.
  take-pending :
      (w : World) (claimed : Option ServiceRequest)
      → (take_candidate env (some candidate) w).0 ≡ ok claimed
      → pending (take_candidate env (some candidate) w).1.db ≡ pending w.db
  take-pending w claimed h =
      ap (count claimable) (take_lem w claimed h).0
      ∙ count-update_where_same (is_open candidate.id) claimable in_progress w.db.requests
          (λ r e. ground arith)

  take-open :
      (w : World) (claimed : Option ServiceRequest)
      → (take_candidate env (some candidate) w).0 ≡ ok claimed
      → open_rows candidate.id (take_candidate env (some candidate) w).1.db
        ≡ open_rows candidate.id w.db
  take-open w claimed h =
      ap (count (is_open candidate.id)) (take_lem w claimed h).0
      ∙ count-update_where_same (is_open candidate.id) (is_open candidate.id) in_progress
          w.db.requests (λ r e. ground arith)

  -- Two pollers that found the same claimable row both get it, if their two updates go through:
  -- the row that the first one took is IN_PROGRESS, which the guard of the second one accepts.
  pub both_pollers_win :
      (w : World) (first second : Option ServiceRequest)
      → 0 < open_rows candidate.id w.db
      → (take_candidate env (some candidate) w).0 ≡ ok first
      → (take_candidate env (some candidate) (take_candidate env (some candidate) w).1).0
        ≡ ok second
      → (first ≡ some (in_progress candidate)) × (second ≡ some (in_progress candidate))
  both_pollers_win w first second room h k = (
    (take_lem w first h).1 room,
    (take_lem (take_candidate env (some candidate) w).1 second k).1
        (ground (arith, take-open w first h)),
  )

-- What a claim that returns has found: a row that is open, or that no row is.
abbrev pub Claimed : Option ServiceRequest → Db → Db → Type 0
Claimed none before after = (pending before ≡ 0) × (after ≡ before)
Claimed (some row) before after = (pending after ≡ pending before) × (0 < open_rows row.id after)

module _ (env : Env) (finds : FindsRequest env) where
  found_lem :
      (w : World) (candidate : Option ServiceRequest)
      → (find_first_request env claimable w).0 ≡ ok candidate
      → ((find_first_request env claimable w).1.db ≡ w.db)
        × (env.first_request claimable w.db.requests ≡ candidate)
  found_lem w candidate h = ground arith

  none_taken :
      (w : World) (claimed : Option ServiceRequest)
      → (take_candidate env none w).0 ≡ ok claimed
      → pending w.db ≡ 0
      → Claimed claimed w.db (take_candidate env none w).1.db
  unfolding take_candidate
  none_taken w none h e = (e, refl)
  none_taken w (some row) h e = absurd (ground arith)

  take-Claimed :
      (w : World) (candidate claimed : Option ServiceRequest)
      → env.first_request claimable w.db.requests ≡ candidate
      → (take_candidate env candidate w).0 ≡ ok claimed
      → Claimed claimed w.db (take_candidate env candidate w).1.db
  take-Claimed w none claimed e h =
      none_taken w claimed h (finds.request_missing claimable w.db.requests e)
  take-Claimed w (some candidate) claimed e h =
      let room =
        count-pos-of_mem (is_open candidate.id) w.db.requests candidate
          (finds.request_mem claimable w.db.requests candidate e)
          (ground (
            arith,
            text_eq_refl candidate.id,
            finds.request_meets claimable w.db.requests candidate e,
          )) in
      subst (λ c. Claimed c w.db (take_candidate env (some candidate) w).1.db)
        (sym ((take_lem env candidate w claimed h).1 room))
        (
          take-pending env candidate w claimed h,
          ground (arith, take-open env candidate w claimed h),
        )

  pub claim-Claimed :
      (w : World) (claimed : Option ServiceRequest)
      → (claim_next env w).0 ≡ ok claimed
      → Claimed claimed w.db (claim_next env w).1.db
  unfolding claim_next
  claim-Claimed w claimed =
      >>=-inv (λ r. r.0 ≡ ok claimed → Claimed claimed w.db r.1.db)
        (find_first_request env claimable) w (take_candidate env)
        (λ candidate h k.
          let (same, e) = found_lem w candidate h in
          let w' = (find_first_request env claimable w).1 in
          subst (λ d. Claimed claimed d (take_candidate env candidate w').1.db) same
            (take-Claimed w' candidate claimed
              (ap (λ (db : Db). env.first_request claimable db.requests) same ∙ e) k))
        (λ r h k f. absurd (ground arith))
