-- ===== src/Effects/Rules.antt =====
-- How a proof follows an action: through each outcome of its first part.
use eps_dapp.Base.{◌≡◌, refl, ◌∙◌, false, arith}
use eps_dapp.Effects.Monad.{
  Result, ok, err, crashed, Error, World, Action, ◌>>=◌, transaction, catch, is_ok,
}

module _ {κ} {A B : Type 0} (P : Result B × World → Type κ) (m : Action A) (w : World) where
  pub >>=-elim :
      (f : A → Action B)
      → ((a : A) → (m w).0 ≡ ok a → P (f a (m w).1))
      → ((e : Error) → (m w).0 ≡ err e → P (err e, (m w).1))
      → ((m w).0 ≡ crashed → P (crashed, (m w).1))
      → P ((m >>= f) w)
  >>=-elim f on_ok on_err on_crash = go (m w).0 (m w).1 on_ok on_err on_crash
    where
      go :
          (r : Result A) (w' : World)
          → ((a : A) → r ≡ ok a → P (f a w'))
          → ((e : Error) → r ≡ err e → P (err e, w'))
          → (r ≡ crashed → P (crashed, w'))
          → P (elim r [ ok a ↦ f a w' | err e ↦ (err e, w') | crashed ↦ (crashed, w') ])
      go (ok a) w' on_ok on_err on_crash = on_ok a refl
      go (err e) w' on_ok on_err on_crash = on_err e refl
      go crashed w' on_ok on_err on_crash = on_crash refl

  -- On the whole result, where the failures are treated alike.
  pub >>=-inv :
      (f : A → Action B)
      → ((a : A) → (m w).0 ≡ ok a → P (f a (m w).1))
      → ((r : Result B) → is_ok r ≡ false → is_ok (m w).0 ≡ false → P (r, (m w).1))
      → P ((m >>= f) w)
  >>=-inv f on_ok on_fail =
      >>=-elim f on_ok (λ e h. on_fail (err e) refl (ground arith))
        (λ h. on_fail crashed refl (ground arith))

-- A part of the world that both parts of an action keep.
pub >>=-keeps :
    {A B X : Type 0} (part : World → X) (m : Action A) (f : A → Action B) (w : World)
    → part (m w).1 ≡ part w
    → ((a : A) (w' : World) → part (f a w').1 ≡ part w')
    → part ((m >>= f) w).1 ≡ part w
>>=-keeps part m f w first then =
    >>=-inv (λ r. part r.1 ≡ part w) m w f (λ a h. then a (m w).1 ∙ first) (λ r h k. first)

-- A transaction returns what its body returns, or leaves the tables alone.
pub transaction-inv :
    {A : Type 0} (P : Result A × World → Type 0) (m : Action A) (w : World)
    → ((a : A) → (m w).0 ≡ ok a → P (ok a, (m w).1))
    → ((r : Result A)
        → is_ok r ≡ false
        → is_ok (m w).0 ≡ false
        → P (r, record (m w).1 { db = w.db }))
    → P (transaction m w)
transaction-inv {A = A} P m w on_ok on_fail = go (m w).0 (m w).1 on_ok on_fail
  where
    go :
        (r : Result A) (w' : World)
        → ((a : A) → r ≡ ok a → P (ok a, w'))
        → ((s : Result A) → is_ok s ≡ false → is_ok r ≡ false → P (s, record w' { db = w.db }))
        → P (elim r [
          | ok a ↦ (ok a, w')
          | err e ↦ (err e, record w' { db = w.db })
          | crashed ↦ (crashed, record w' { db = w.db })
        ])
    go (ok a) w' on_ok on_fail = on_ok a refl
    go (err e) w' on_ok on_fail = on_fail (err e) refl refl
    go crashed w' on_ok on_fail = on_fail crashed refl refl

-- A failure of the body goes on with the handler.
pub catch-inv :
    {A : Type 0} (P : Result A × World → Type 0) (m : Action A) (handler : Error → Action A)
    (w : World)
    → ((a : A) → (m w).0 ≡ ok a → P (ok a, (m w).1))
    → ((e : Error) → (m w).0 ≡ err e → P (handler e (m w).1))
    → ((m w).0 ≡ crashed → P (crashed, (m w).1))
    → P (catch m handler w)
catch-inv {A = A} P m handler w on_ok on_err on_crash = go (m w).0 (m w).1 on_ok on_err on_crash
  where
    go :
        (r : Result A) (w' : World)
        → ((a : A) → r ≡ ok a → P (ok a, w'))
        → ((e : Error) → r ≡ err e → P (handler e w'))
        → (r ≡ crashed → P (crashed, w'))
        → P (elim r [ ok a ↦ (ok a, w') | err e ↦ handler e w' | crashed ↦ (crashed, w') ])
    go (ok a) w' on_ok on_err on_crash = on_ok a refl
    go (err e) w' on_ok on_err on_crash = on_err e refl
    go crashed w' on_ok on_err on_crash = on_crash refl

-- A part of the world that the body and the handler keep.
pub catch-keeps :
    {A X : Type 0} (part : World → X) (m : Action A) (handler : Error → Action A) (w : World)
    → part (m w).1 ≡ part w
    → ((e : Error) (w' : World) → part (handler e w').1 ≡ part w')
    → part (catch m handler w).1 ≡ part w
catch-keeps part m handler w body handled =
    catch-inv (λ r. part r.1 ≡ part w) m handler w (λ a h. body) (λ e h. handled e (m w).1 ∙ body)
      (λ h. body)
