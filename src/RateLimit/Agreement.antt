-- ===== src/RateLimit/Agreement.antt =====
-- The bounded limiter of lib/rateLimit.ts: its size, and that it decides as the unbounded one does
-- while nothing is evicted.
use eps_dapp.Base.{
  ℕ, ◌+◌, ◌≤◌, ◌<◌, ◌≡◌, refl, false, Option, none, some, [], ◌∷◌, ◌++◌, arith, leb, if◌then◌else◌,
  Bool-cases, Option-cases, length, Text, text_eq, text_eq_refl, inl, inr,
}
use eps_dapp.Base.Dict.{
  get, set, get-set, get-delete, length-set-le, length-delete-le, set_absent, length-set_present,
}
use eps_dapp.RateLimit.Fixed
use eps_dapp.RateLimit.Fixed.{RateLimitOptions, Counter, fresh_window, same_window}
use eps_dapp.RateLimit.Lru
use eps_dapp.RateLimit.Lru.{Bucket, Buckets, evict, open_bucket, rate_limit_capped, max_keys}

length-evict : (cap : ℕ) (m : Buckets) → length (evict cap m) ≤ cap
unfolding evict
length-evict cap [] = omega arith
length-evict cap (e ∷ m) = ground (arith, length-evict cap m)

evict_small : (cap : ℕ) (m : Buckets) → length m ≤ cap → evict cap m ≡ m
unfolding evict
evict_small cap [] h = refl
evict_small cap (e ∷ m) h = ground arith

-- What stands at the end is not evicted.
get-evict_last :
    (cap : ℕ) (key : Text) (b : Bucket) (m : Buckets)
    → 1 ≤ cap
    → get key m ≡ none
    → get key (evict cap (m ++ (key, b) ∷ [])) ≡ some b
unfolding evict get
get-evict_last cap key b [] h e = ground (arith, text_eq_refl key)
get-evict_last cap key b ((j, w) ∷ m) h e =
    ground (arith, get-evict_last cap key b m h, text_eq_refl key, get-append_last key b m)
  where
    get-append_last :
        (key : Text) (b : Bucket) (m : Buckets)
        → get key m ≡ none
        → get key (m ++ (key, b) ∷ []) ≡ some b
    get-append_last key b [] e = ground (arith, text_eq_refl key)
    get-append_last key b ((j, w) ∷ m) e = ground (arith, get-append_last key b m)

-- The map never holds more keys than its bound.
pub length-rate_limit :
    (cap : ℕ) (key : Text) (limit window_ms now : ℕ) (m : Buckets)
    → length (rate_limit_capped cap key limit window_ms now m).1 ≤ cap
unfolding rate_limit_capped
length-rate_limit cap key limit window_ms now m = length-evict cap _

-- Both limiters have seen the same of a caller.
abbrev pub SameCount : Option Counter → Option Bucket → Type 0
SameCount none none = Unit
SameCount (some c) (some b) = (c.count ≡ b.count) × (c.reset_at ≡ b.reset_at)
SameCount none (some b) = ⊥
SameCount (some c) none = ⊥

abbrev pub Agrees : Fixed.Buckets → Buckets → Type 0
Agrees m n = (key : Text) → SameCount (get key m) (get key n)

pub record SameAnswer (a : Fixed.RateLimitResult) (b : Lru.RateLimitResult) : Type 0 where
  pub ok : a.ok ≡ b.ok
  pub remaining : a.remaining ≡ b.remaining
  pub reset_at : a.reset_at ≡ b.reset_at

get-evict-set :
    (cap : ℕ) (key : Text) (b : Bucket) (m : Buckets)
    → 1 ≤ cap
    → length m ≤ cap
    → get key (evict cap (set key b m)) ≡ some b
get-evict-set cap key b m pos h = elim (Option-cases (get key m)) [
  | inl e ↦ rw (set_absent key b m e) (get-evict_last cap key b m pos e)
  | inr (old, e) ↦ ground (
    arith,
    evict_small cap (set key b m),
    length-set_present key b old m e,
    get-set key key b m,
    text_eq_refl key,
  )
]

module _ (key : Text) (limit window_ms now : ℕ) (n : Buckets) where
  length-open_bucket : length (open_bucket key window_ms now n).1 ≤ length n
  unfolding open_bucket
  length-open_bucket = ground (arith, length-delete-le key n)

  get-open_bucket :
      (j : Text) → text_eq key j ≡ false → get j (open_bucket key window_ms now n).1 ≡ get j n
  unfolding open_bucket
  get-open_bucket j h = ground (arith, get-delete key j n)

  -- With room for one more key, the other keys' buckets stay, and the key has its new bucket.
  get-rate_limit :
      (cap : ℕ) (j : Text)
      → length n < cap
      → get j (rate_limit_capped cap key limit window_ms now n).1 ≡ (
          if text_eq key j
          then some (record (open_bucket key window_ms now n).0 {
            count = (open_bucket key window_ms now n).0.count + 1;
          })
          else get j n)
  unfolding rate_limit_capped
  get-rate_limit cap j room =
      let bucket : Bucket = record (open_bucket key window_ms now n).0 {
        count = (open_bucket key window_ms now n).0.count + 1;
      } in
      let opened = (open_bucket key window_ms now n).1 in
      ground (
        arith,
        evict_small cap (set key bucket opened),
        length-set-le key bucket opened,
        length-open_bucket,
        get-set key j bucket opened,
        get-open_bucket j,
      )

-- The caller that was just served is kept: its bucket, with the count of this request, survives
-- the eviction, if the map was within its bound.
pub served-kept :
    (cap : ℕ) (key : Text) (limit window_ms now : ℕ) (m : Buckets)
    → 1 ≤ cap
    → length m ≤ cap
    → (b : Bucket) × (get key (rate_limit_capped cap key limit window_ms now m).1 ≡ some b)
served-kept cap key limit window_ms now m pos h = (
  record (open_bucket key window_ms now m).0 {
    count = (open_bucket key window_ms now m).0.count + 1;
  },
  unfold rate_limit_capped in
      get-evict-set cap key _ (open_bucket key window_ms now m).1 pos
        (omega (arith, length-open_bucket key limit window_ms now m)),
)

module _ (key : Text) (opts : RateLimitOptions) (now : ℕ) (m : Fixed.Buckets) (n : Buckets) where
  answers_agree :
      1 ≤ opts.limit
      → SameCount (get key m) (get key n)
      → SameAnswer
          (Fixed.rate_limit key opts now m).0
          (Lru.rate_limit key opts.limit opts.window_ms now n).0
  unfolding Fixed.rate_limit Lru.rate_limit
  answers_agree pos h = ground arith

  counted : Counter
  counted = elim (get key m) [
    | none ↦ record { count = 1; reset_at = now + opts.window_ms }
    | some c ↦
        if leb c.reset_at now
        then record { count = 1; reset_at = now + opts.window_ms }
        else record c { count = c.count + 1 }
  ]

  get-rate_limit_fixed :
      (j : Text)
      → get j (Fixed.rate_limit key opts now m).1
        ≡ (if text_eq key j then some counted else get j m)
  unfolding Fixed.rate_limit counted
  get-rate_limit_fixed j =
      let fresh : Counter = record { count = 1; reset_at = now + opts.window_ms } in
      elim (Option-cases (get key m)) [
        | inl e ↦ ground (arith, get-set key j fresh m)
        | inr (c, e) ↦
            ground
              (arith, get-set key j fresh m, get-set key j (record c { count = c.count + 1 }) m)
      ]

  counted-SameCount :
      SameCount (get key m) (get key n)
      → (counted.count ≡ (open_bucket key opts.window_ms now n).0.count + 1)
        × (counted.reset_at ≡ (open_bucket key opts.window_ms now n).0.reset_at)
  unfolding counted open_bucket
  counted-SameCount h = ground arith

  counts_agree :
      (j : Text)
      → length n < max_keys
      → SameCount (get key m) (get key n)
      → SameCount (get j m) (get j n)
      → SameCount
          (get j (Fixed.rate_limit key opts now m).1)
          (get j (Lru.rate_limit key opts.limit opts.window_ms now n).1)
  unfolding Lru.rate_limit
  counts_agree j room h k =
      let fixed = get-rate_limit_fixed j in
      let lru = get-rate_limit key opts.limit opts.window_ms now n max_keys j room in
      elim (Bool-cases (text_eq key j)) [
        | inl same ↦ rw (fixed, lru, same) (counted-SameCount h)
        | inr other ↦ rw (fixed, lru, other) k
      ]

  -- With a limit of at least 1 and room for one more key, two limiters that have seen the same
  -- give the same answer, and have again seen the same.
  pub rate_limit-Agrees :
      1 ≤ opts.limit
      → length n < max_keys
      → Agrees m n
      → SameAnswer
          (Fixed.rate_limit key opts now m).0
          (Lru.rate_limit key opts.limit opts.window_ms now n).0
        × Agrees
            (Fixed.rate_limit key opts now m).1
            (Lru.rate_limit key opts.limit opts.window_ms now n).1
  rate_limit-Agrees pos room h = (answers_agree pos (h key), λ j. counts_agree j room (h key) (h j))
