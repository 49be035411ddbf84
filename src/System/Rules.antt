-- ===== src/System/Rules.antt =====
-- How an action is shown to take the table of requests along the life cycle, by its parts.
use eps_dapp.Base.{◌≡◌, ◌⊎◌, inl, inr, refl, sym, subst, Bool, arith, update_where}
use eps_dapp.Db.{ServiceRequest, requests_table}
use eps_dapp.Effects.{
  World, Env, Action, Error, update, ◌>>=◌, transaction, catch, >>=-inv, catch-inv, transaction-inv,
}
use eps_dapp.Lifecycle.{
  UniqueIds, Advances, Follows, Follows-update, Follows-Evolved, Evolved, same-Evolved,
  Evolved-trans,
}

-- Whatever comes of the action, from tables with unique ids, each request goes on.
abbrev pub Evolves : {A : Type 0} → Action A → Type 0
Evolves m = (w : World) → UniqueIds w.db → Evolved w.db (m w).1.db

-- The action leaves the requests alone.
abbrev pub Keeps : {A : Type 0} → Action A → Type 0
Keeps m = (w : World) → (m w).1.db.requests ≡ w.db.requests

module _ {A : Type 0} where
  pub Keeps-Evolves : (m : Action A) → Keeps m → Evolves m
  Keeps-Evolves m keeps w unique = same-Evolved w.db (m w).1.db unique (keeps w)

  pub catch-Evolves :
      (m : Action A) (handler : Error → Action A)
      → Evolves m
      → ((e : Error) → Evolves (handler e))
      → Evolves (catch m handler)
  catch-Evolves m handler body handled w unique =
      catch-inv (λ r. Evolved w.db r.1.db) m handler w (λ a h. body w unique)
        (λ e h. Evolved-trans (body w unique) (handled e (m w).1 (body w unique).unique))
        (λ h. body w unique)

  pub transaction-Evolves : (m : Action A) → Evolves m → Evolves (transaction m)
  transaction-Evolves m body w unique =
      transaction-inv (λ r. Evolved w.db r.1.db) m w (λ a h. body w unique)
        (λ r h k. same-Evolved w.db w.db unique refl)

  module _ {B : Type 0} where
    pub >>=-Evolves :
        (m : Action A) (f : A → Action B)
        → Evolves m
        → ((a : A) → Evolves (f a))
        → Evolves (m >>= f)
    >>=-Evolves m f first then_on w unique =
        >>=-inv (λ r. Evolved w.db r.1.db) m w f
          (λ a h. Evolved-trans (first w unique) (then_on a (m w).1 (first w unique).unique))
          (λ r h k. first w unique)

-- An update under which each request goes on, wherever it applies.
pub update-Evolves :
    (env : Env) (p : ServiceRequest → Bool) (f : ServiceRequest → ServiceRequest)
    → ((r : ServiceRequest) → Advances r (f r))
    → Evolves (update env requests_table p f)
update-Evolves env p f goes_on w unique = elim (updated_or_not) [
  | inl rows ↦ Follows-Evolved w.db (update env requests_table p f w).1.db unique (
      subst (Follows w.db.requests) (sym rows)
        (Follows-update p f w.db.requests (λ r m k. goes_on r)))
  | inr rows ↦ same-Evolved w.db (update env requests_table p f w).1.db unique rows
]
  where
    updated_or_not :
        ((update env requests_table p f w).1.db.requests ≡ update_where p f w.db.requests)
        ⊎ ((update env requests_table p f w).1.db.requests ≡ w.db.requests)
    updated_or_not = ground arith
