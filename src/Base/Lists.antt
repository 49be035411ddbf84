-- ===== src/Base/Lists.antt =====
-- Lists over the native numbers: lengths, counts, searches and updates of the rows that meet a
-- test.
use Prim.Native.Nat.{ℕ, zero, suc, ◌+◌, ◌≤◌, ◌<◌}
use mathlib.Core.Path.{◌≡◌, refl, ap, sym, ◌∙◌}
use mathlib.Core.Bool.{Bool, true, false, ◌&&◌, ◌||◌}
use mathlib.Core.Option.{Option, none, some}
use mathlib.Core.List.{Memᴰ, List, [], ◌∷◌, ◌++◌}
use native.Mathlib.Omega.{arith}
use mathlib.Core.Logic.{inl, inr}
use eps_dapp.Base.Tests.{Bool-cases, if◌then◌else◌}

module _ {ℓ} {A : Type ℓ} where
  abbrev pub length : List A → ℕ
  length [] = 0
  length (x ∷ xs) = suc (length xs)

  abbrev pub take : ℕ → List A → List A
  take zero xs = []
  take (suc n) [] = []
  take (suc n) (x ∷ xs) = x ∷ take n xs

  abbrev pub drop : ℕ → List A → List A
  drop zero xs = xs
  drop (suc n) [] = []
  drop (suc n) (x ∷ xs) = drop n xs

  -- How many items meet the test.
  abbrev pub count : (A → Bool) → List A → ℕ
  count p [] = 0
  count p (x ∷ xs) = if p x then suc (count p xs) else count p xs

  abbrev pub all : (A → Bool) → List A → Bool
  all p [] = true
  all p (x ∷ xs) = p x && all p xs

  abbrev pub any : (A → Bool) → List A → Bool
  any p [] = false
  any p (x ∷ xs) = p x || any p xs

  -- The first item that meets the test.
  abbrev pub find : (A → Bool) → List A → Option A
  find p [] = none
  find p (x ∷ xs) = if p x then some x else find p xs

  -- Every item that meets the test is replaced.
  abbrev pub update_where : (A → Bool) → (A → A) → List A → List A
  update_where p f [] = []
  update_where p f (x ∷ xs) = (if p x then f x else x) ∷ update_where p f xs

  pub length-append : (xs ys : List A) → length (xs ++ ys) ≡ length xs + length ys
  length-append [] ys = omega arith
  length-append (x ∷ xs) ys = omega (arith, length-append xs ys)

  pub length-take : (n : ℕ) (xs : List A) → length (take n xs) ≤ n
  length-take zero xs = omega arith
  length-take (suc n) [] = omega arith
  length-take (suc n) (x ∷ xs) = omega (arith, length-take n xs)

  pub length-update_where :
      (p : A → Bool) (f : A → A) (xs : List A) → length (update_where p f xs) ≡ length xs
  length-update_where p f [] = refl
  length-update_where p f (x ∷ xs) = ap suc (length-update_where p f xs)

  pub update_where_none :
      (p : A → Bool) (f : A → A) (xs : List A) → count p xs ≡ 0 → update_where p f xs ≡ xs
  update_where_none p f [] h = refl
  update_where_none p f (x ∷ xs) h = ground (arith, update_where_none p f xs)

  pub count-le-length : (p : A → Bool) (xs : List A) → count p xs ≤ length xs
  count-le-length p [] = omega arith
  count-le-length p (x ∷ xs) = ground (arith, count-le-length p xs)

module _ {ℓ κ} {A : Type ℓ} where
  abbrev pub All : (A → Type κ) → List A → Type κ
  All P [] = Unit
  All P (x ∷ xs) = P x × All P xs

  pub All-mem : (P : A → Type κ) (xs : List A) {x : A} → All P xs → Memᴰ x xs → P x
  All-mem P [] h m = elim m [ ]
  All-mem P (y ∷ ys) h (Memᴰ.head e) = rw e h.0
  All-mem P (y ∷ ys) h (Memᴰ.tail m) = All-mem P ys h.1 m

  pub All-of_mem : (P : A → Type κ) (xs : List A) → ((x : A) → Memᴰ x xs → P x) → All P xs
  All-of_mem P [] h = tt
  All-of_mem P (x ∷ xs) h = (h x (Memᴰ.head refl), All-of_mem P xs (λ y m. h y (Memᴰ.tail m)))

  pub All-update_where :
      (P : A → Type κ) (p : A → Bool) (f : A → A) (xs : List A)
      → All P xs
      → ((x : A) → Memᴰ x xs → p x ≡ true → P (f x))
      → All P (update_where p f xs)
  All-update_where P p f [] h k = tt
  All-update_where P p f (x ∷ xs) h k =
      (if_of (p x) refl, All-update_where P p f xs h.1 (λ y m. k y (Memᴰ.tail m)))
    where
      if_of : (b : Bool) → p x ≡ b → P (if b then f x else x)
      if_of true e = k x (Memᴰ.head refl) e
      if_of false e = h.0

pub count-pos-of_mem {ℓ} :
    {A : Type ℓ} (p : A → Bool) (xs : List A) (a : A) → Memᴰ a xs → p a ≡ true → 0 < count p xs
count-pos-of_mem p [] a m h = elim m [ ]
count-pos-of_mem p (x ∷ xs) a (Memᴰ.head e) h = ground (arith, ap p e)
count-pos-of_mem p (x ∷ xs) a (Memᴰ.tail m) h = ground (arith, count-pos-of_mem p xs a m h)

-- Items that meet a test which one item of the list meets are one.
pub eq-of_count_one {ℓ} :
    {A : Type ℓ} (p : A → Bool) (xs : List A) (a b : A)
    → count p xs ≡ 1
    → Memᴰ a xs
    → Memᴰ b xs
    → p a ≡ true
    → p b ≡ true
    → a ≡ b
eq-of_count_one p [] a b one ma mb pa pb = elim ma [ ]
eq-of_count_one p (x ∷ xs) a b one (Memᴰ.head e) (Memᴰ.head k) pa pb = e ∙ sym k
eq-of_count_one p (x ∷ xs) a b one (Memᴰ.head e) (Memᴰ.tail m) pa pb =
    absurd (ground (arith, ap p e, count-pos-of_mem p xs b m pb))
eq-of_count_one p (x ∷ xs) a b one (Memᴰ.tail m) (Memᴰ.head k) pa pb =
    absurd (ground (arith, ap p k, count-pos-of_mem p xs a m pa))
eq-of_count_one p (x ∷ xs) a b one (Memᴰ.tail m) (Memᴰ.tail n) pa pb =
    eq-of_count_one p xs a b (ground (arith, count-pos-of_mem p xs a m pa)) m n pa pb

pub mem-of_count_pos {ℓ} :
    {A : Type ℓ} (p : A → Bool) (xs : List A) → 0 < count p xs → (x : A) × Memᴰ x xs × (p x ≡ true)
mem-of_count_pos p [] h = elim h [ ]
mem-of_count_pos p (x ∷ xs) h = elim (Bool-cases (p x)) [
  | inl meets ↦ (x, Memᴰ.head refl, meets)
  | inr fails ↦ let (y, m, e) = mem-of_count_pos p xs (ground arith) in (y, Memᴰ.tail m, e)
]

-- Counts of another test after an update.
module _ {ℓ} {A : Type ℓ} (p q : A → Bool) (f : A → A) where
  pub count-update_where_same :
      (xs : List A)
      → ((x : A) → p x ≡ true → q (f x) ≡ q x)
      → count q (update_where p f xs) ≡ count q xs
  count-update_where_same [] h = refl
  count-update_where_same (x ∷ xs) h = elim (Bool-cases (p x)) [
    | inl e ↦ ground (arith, h x e, count-update_where_same xs h)
    | inr e ↦ ground (arith, count-update_where_same xs h)
  ]

  pub count-update_where-le :
      (xs : List A)
      → ((x : A) → p x ≡ true → q (f x) ≡ false)
      → count q (update_where p f xs) ≤ count q xs
  count-update_where-le [] h = omega arith
  count-update_where-le (x ∷ xs) h = elim (Bool-cases (p x)) [
    | inl e ↦ ground (arith, h x e, count-update_where-le xs h)
    | inr e ↦ ground (arith, count-update_where-le xs h)
  ]

  pub count-update_where-lt :
      (xs : List A)
      → ((x : A) → p x ≡ true → q (f x) ≡ false)
      → 0 < count (λ x. p x && q x) xs
      → count q (update_where p f xs) < count q xs
  count-update_where-lt [] h k = elim k [ ]
  count-update_where-lt (x ∷ xs) h k = elim (Bool-cases (p x)) [
    | inl e ↦ ground (arith, h x e, count-update_where-le xs h, count-update_where-lt xs h)
    | inr e ↦ ground (arith, count-update_where-lt xs h)
  ]

pub any-append_last {ℓ} :
    {A : Type ℓ} (p : A → Bool) (xs : List A) (x : A) → p x ≡ true → any p (xs ++ x ∷ []) ≡ true
any-append_last p [] x h = ground arith
any-append_last p (y ∷ ys) x h = ground (arith, any-append_last p ys x h)

-- A row that is found and updated is there.
pub any-update_where {ℓ} :
    {A : Type ℓ} (p q : A → Bool) (f : A → A) (xs : List A)
    → any p xs ≡ true
    → ((x : A) → p x ≡ true → q (f x) ≡ true)
    → any q (update_where p f xs) ≡ true
any-update_where p q f [] h k = absurd (ground arith)
any-update_where p q f (x ∷ xs) h k = elim (Bool-cases (p x)) [
  | inl e ↦ ground (arith, k x e)
  | inr e ↦ ground (arith, any-update_where p q f xs (ground arith) k)
]

pub any-of_find {ℓ} :
    {A : Type ℓ} (p : A → Bool) (xs : List A) (a : A) → find p xs ≡ some a → any p xs ≡ true
any-of_find p [] a h = absurd (ground arith)
any-of_find p (x ∷ xs) a h = ground (arith, any-of_find p xs a)

pub mem-append_last {ℓ} : {A : Type ℓ} (xs : List A) (x : A) → Memᴰ x (xs ++ x ∷ [])
mem-append_last [] x = Memᴰ.head refl
mem-append_last (y ∷ ys) x = Memᴰ.tail (mem-append_last ys x)

-- The row that is found meets the test.
pub find_meets {ℓ} :
    {A : Type ℓ} (p : A → Bool) (rows : List A) (a : A) → find p rows ≡ some a → p a ≡ true
find_meets p [] a h = absurd (ground arith)
find_meets p (x ∷ rows) a h = elim (Bool-cases (p x)) [
  | inl e ↦ ground arith
  | inr e ↦ find_meets p rows a (ground arith)
]

pub any-or {ℓ} :
    {A : Type ℓ} (p q : A → Bool) (xs : List A)
    → any (λ x. p x || q x) xs ≡ false
    → any p xs ≡ false
any-or p q [] h = refl
any-or p q (x ∷ xs) h = ground (arith, any-or p q xs)

pub find-mem {ℓ} :
    {A : Type ℓ} (p : A → Bool) (rows : List A) (a : A) → find p rows ≡ some a → Memᴰ a rows
find-mem p [] a h = absurd (ground arith)
find-mem p (x ∷ rows) a h = elim (Bool-cases (p x)) [
  | inl e ↦ Memᴰ.head (ground arith)
  | inr e ↦ Memᴰ.tail (find-mem p rows a (ground arith))
]
