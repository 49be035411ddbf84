-- ===== src/Samples/Queries.antt =====
-- Concrete `findFirst` queries, which satisfy the laws that the theorems assume of the database.
use mathlib.Core.List.{Memᴰ}
use eps_dapp.Base.{
  ◌≤◌, ◌≡◌, refl, Bool, true, false, Option, none, some, List, [], ◌∷◌, ltb, arith, All,
  if◌then◌else◌, find, count, inl, inr, ◌⊎◌, Option-cases,
}
use eps_dapp.Db.{Subscription}

module _ {A : Type 0} (p : A → Bool) where
  pub find_missing : (rows : List A) → find p rows ≡ none → count p rows ≡ 0
  find_missing [] h = refl
  find_missing (x ∷ rows) h = ground (arith, find_missing rows)

-- The later of a row and the latest of the others.
abbrev pub later : Subscription → Option Subscription → Subscription
later s none = s
later s (some r) = if ltb s.period_end r.period_end then r else s

abbrev pub latest : (Subscription → Bool) → List Subscription → Option Subscription
latest p [] = none
latest p (s ∷ rows) = if p s then some (later s (latest p rows)) else latest p rows

module _ (p : Subscription → Bool) where
  head_or_tail :
      (x : Subscription) (rows : List Subscription) (s : Subscription)
      → latest p (x ∷ rows) ≡ some s
      → (s ≡ x) ⊎ (latest p rows ≡ some s)
  head_or_tail x rows s h = ground arith

  pub latest-mem :
      (rows : List Subscription) (s : Subscription) → latest p rows ≡ some s → Memᴰ s rows
  latest-mem [] s h = absurd (ground arith)
  latest-mem (x ∷ rows) s h = elim (head_or_tail x rows s h) [
    | inl e ↦ Memᴰ.head e
    | inr e ↦ Memᴰ.tail (latest-mem rows s e)
  ]

  pub latest_meets :
      (rows : List Subscription) (s : Subscription) → latest p rows ≡ some s → p s ≡ true
  latest_meets [] s h = absurd (ground arith)
  latest_meets (x ∷ rows) s h = elim (Option-cases (latest p rows)) [
    | inl e ↦ ground arith
    | inr (r, e) ↦ ground (arith, latest_meets rows r e)
  ]

  pub latest_missing :
      (rows : List Subscription) → latest p rows ≡ none → All (λ r. p r ≡ false) rows
  latest_missing [] h = tt
  latest_missing (x ∷ rows) h = ground (arith, latest_missing rows)

  later_all :
      (rows : List Subscription) (s t : Subscription)
      → s.period_end ≤ t.period_end
      → All (λ r. p r ≡ true → r.period_end ≤ s.period_end) rows
      → All (λ r. p r ≡ true → r.period_end ≤ t.period_end) rows
  later_all [] s t h k = tt
  later_all (x ∷ rows) s t h k = (λ e. ground arith, later_all rows s t h k.1)

  none_all :
      (rows : List Subscription) (t : Subscription)
      → All (λ r. p r ≡ false) rows
      → All (λ r. p r ≡ true → r.period_end ≤ t.period_end) rows
  none_all [] t k = tt
  none_all (x ∷ rows) t k = (λ e. ground arith, none_all rows t k.1)

  pub latest_lem :
      (rows : List Subscription) (s : Subscription)
      → latest p rows ≡ some s
      → All (λ r. p r ≡ true → r.period_end ≤ s.period_end) rows
  latest_lem [] s h = tt
  latest_lem (x ∷ rows) s h = elim (Option-cases (latest p rows)) [
    | inl e ↦ (λ k. ground arith, none_all rows s (latest_missing rows e))
    | inr (r, e) ↦ (λ k. ground arith, later_all rows r s (ground arith) (latest_lem rows r e))
  ]
