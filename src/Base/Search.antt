-- ===== src/Base/Search.antt =====
-- What `find` and `any` see of a list that grows.
use mathlib.Core.Path.{◌≡◌, refl}
use mathlib.Core.Bool.{Bool, true, false}
use mathlib.Core.Option.{none, some}
use mathlib.Core.List.{Memᴰ, List, [], ◌∷◌, ◌++◌}
use mathlib.Core.Logic.{inl, inr}
use native.Mathlib.Omega.{arith}
use eps_dapp.Base.Tests.{Bool-cases}
use eps_dapp.Base.Lists.{find, any, update_where}

module _ {ℓ} {A : Type ℓ} (p : A → Bool) where
  pub find-append_last :
      (xs : List A) (x : A) → find p xs ≡ none → p x ≡ true → find p (xs ++ x ∷ []) ≡ some x
  find-append_last [] x e h = ground arith
  find-append_last (y ∷ xs) x e h = ground (arith, find-append_last xs x)

  pub find-missing : (xs : List A) → find p xs ≡ none → any p xs ≡ false
  find-missing [] e = refl
  find-missing (x ∷ xs) e = ground (arith, find-missing xs)

  pub find-none : (xs : List A) → any p xs ≡ false → find p xs ≡ none
  find-none [] e = refl
  find-none (x ∷ xs) e = ground (arith, find-none xs)

  pub find-some : (xs : List A) → any p xs ≡ true → (x : A) × (find p xs ≡ some x)
  find-some [] e = absurd (ground arith)
  find-some (x ∷ xs) e = elim (Bool-cases (p x)) [
    | inl k ↦ (x, ground (arith, k))
    | inr k ↦ let (y, found) = find-some xs (ground (arith, k)) in (y, ground (arith, k, found))
  ]

  pub any-append : (xs ys : List A) → any p xs ≡ true → any p (xs ++ ys) ≡ true
  any-append [] ys e = absurd (ground arith)
  any-append (x ∷ xs) ys e = ground (arith, any-append xs ys)

pub mem-update_where {ℓ} :
    {A : Type ℓ} (p : A → Bool) (f : A → A) (rows : List A) (r : A)
    → Memᴰ r rows
    → p r ≡ true
    → Memᴰ (f r) (update_where p f rows)
mem-update_where p f [] r m e = elim m [ ]
mem-update_where p f (x ∷ rows) r (Memᴰ.head k) e = Memᴰ.head (ground (arith, k))
mem-update_where p f (x ∷ rows) r (Memᴰ.tail m) e = elim (Bool-cases (p x)) [
  | inl k ↦ simp k (Memᴰ.tail (mem-update_where p f rows r m e))
  | inr k ↦ simp k (Memᴰ.tail (mem-update_where p f rows r m e))
]
