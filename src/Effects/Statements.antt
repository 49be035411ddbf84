-- ===== src/Effects/Statements.antt =====
-- The statements of the Prisma client on a table. `where` and `data` are given by the call.
use eps_dapp.Base.{
  ℕ, ◌+◌, Bool, Option, none, some, [], ◌∷◌, ◌++◌, if◌then◌else◌, count, any, find, update_where,
}
use eps_dapp.Db.{Db, Table, Subscription, ServiceRequest}
use eps_dapp.Effects.Monad.{
  Result, ok, err, crashed, Env, Action, record_not_found, unique_violation,
}

-- `update` by a unique column throws if no row is there.
abbrev pub update_found :
    {Row : Type 0} → Table Row → (Row → Bool) → (Row → Row) → Option Row → Db → Result Row × Db
update_found t p f none db = (err record_not_found, db)
update_found t p f (some row) db = (ok (f row), t.put (update_where p f (t.rows db)) db)

module _ (env : Env) where
  -- One statement: it takes effect only if it goes through.
  abbrev pub statement : {A : Type 0} → (Db → Result A × Db) → Action A
  statement f w = elim (env.answers w.tick) [
    | ok _ ↦ ((f w.db).0, record w { db = (f w.db).1; tick = w.tick + 1 })
    | err e ↦ (err e, record w { tick = w.tick + 1 })
    | crashed ↦ (crashed, record w { tick = w.tick + 1 })
  ]

  -- `findFirst` on subscriptions, `orderBy: { periodEnd: "desc" }`.
  abbrev pub find_first_subscription : (Db → Subscription → Bool) → Action (Option Subscription)
  find_first_subscription p =
      statement (λ db. (ok (env.first_subscription (p db) db.subscriptions), db))

  -- `findFirst` on service requests, `orderBy: { createdAt: "asc" }`.
  abbrev pub find_first_request : (ServiceRequest → Bool) → Action (Option ServiceRequest)
  find_first_request p = statement (λ db. (ok (env.first_request p db.requests), db))

  -- `findUnique`, or `findFirst` on a unique column.
  abbrev pub find_unique : {Row : Type 0} → Table Row → (Row → Bool) → Action (Option Row)
  find_unique t p = statement (λ db. (ok (find p (t.rows db)), db))

  -- `updateMany`: the number of rows that were changed.
  abbrev pub update_many : {Row : Type 0} → Table Row → (Row → Bool) → (Row → Row) → Action ℕ
  update_many t p f =
      statement (λ db. (ok (count p (t.rows db)), t.put (update_where p f (t.rows db)) db))

  abbrev pub update : {Row : Type 0} → Table Row → (Row → Bool) → (Row → Row) → Action Row
  update t p f = statement (λ db. update_found t p f (find p (t.rows db)) db)

  -- `create` throws if a unique column has the value already.
  abbrev pub create : {Row : Type 0} → Table Row → (Row → Bool) → Row → Action Row
  create t clashes row = statement (λ db.
      if any clashes (t.rows db)
      then (err unique_violation, db)
      else (ok row, t.put (t.rows db ++ row ∷ []) db))
