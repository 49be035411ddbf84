-- ===== src/RateLimit/Window.antt =====
-- How many requests of one caller the limiter of lib/rate-limit.ts allows in a window, whatever the
-- other callers send in between.
use Prim.Native.Nat.{min}
use eps_dapp.Base.{
  ℕ, suc, ◌+◌, ◌-◌, ◌≤◌, ◌<◌, ◌≡◌, ◌⊎◌, true, false, ◌&&◌, none, some, List, [], ◌∷◌, arith,
  if◌then◌else◌, count, Text, text_eq, text_eq_iff, text_eq_refl, leb,
}
use eps_dapp.Base.Dict.{get, get-set}
use eps_dapp.RateLimit.Fixed.{Counter, Buckets, RateLimitOptions, rate_limit}

-- A request: its key and the time at which it arrives.
abbrev pub Hit : Type 0
Hit = Text × ℕ

abbrev pub granted : Text → RateLimitOptions → List Hit → Buckets → ℕ
granted key opts [] buckets = 0
granted key opts ((other, now) ∷ hits) buckets =
    let answer = rate_limit other opts now buckets in
    (if text_eq other key && answer.0.ok then 1 else 0) + granted key opts hits answer.1

abbrev pub hits_of : Text → List Hit → ℕ
hits_of key hits = count (λ h. text_eq h.0 key) hits

-- All requests of the key arrive before the time.
abbrev pub ArriveBefore : Text → ℕ → List Hit → Type 0
ArriveBefore key end [] = Unit
ArriveBefore key end ((other, now) ∷ hits) = (other ≡ key → now < end) × ArriveBefore key end hits

-- A request of one key leaves the counter of another alone.
rate_limit_other :
    (other key : Text) (opts : RateLimitOptions) (now : ℕ) (buckets : Buckets)
    → text_eq other key ≡ false
    → get key (rate_limit other opts now buckets).1 ≡ get key buckets
unfolding rate_limit
rate_limit_other other key opts now buckets h = grind (arith, get-set)

-- A request in an open window counts, and is allowed while the count is within the limit.
rate_limit_same :
    (key : Text) (opts : RateLimitOptions) (now : ℕ) (buckets : Buckets) (c : Counter)
    → get key buckets ≡ some c
    → now < c.reset_at
    → ((rate_limit key opts now buckets).0.ok ≡ leb (c.count + 1) opts.limit)
      × (get key (rate_limit key opts now buckets).1 ≡ some (record c { count = c.count + 1 }))
unfolding rate_limit
rate_limit_same key opts now buckets c e h = grind (arith, get-set, text_eq_refl)

-- A request with no open window starts one, and is allowed.
rate_limit_fresh :
    (key : Text) (opts : RateLimitOptions) (now : ℕ) (buckets : Buckets)
    → (get key buckets ≡ none) ⊎ ((c : Counter) × (get key buckets ≡ some c) × (c.reset_at ≤ now))
    → ((rate_limit key opts now buckets).0.ok ≡ true)
      × (get key (rate_limit key opts now buckets).1
          ≡ some (record { count = 1; reset_at = now + opts.window_ms }))
unfolding rate_limit
rate_limit_fresh key opts now buckets h = ground (
  arith,
  get-set key key (record { count = 1; reset_at = now + opts.window_ms }) buckets,
  text_eq_refl key,
)

granted_in_window :
    (key : Text) (opts : RateLimitOptions) (hits : List Hit) (buckets : Buckets) (c : Counter)
    → get key buckets ≡ some c
    → ArriveBefore key c.reset_at hits
    → granted key opts hits buckets ≡ min (hits_of key hits) (opts.limit - c.count)
granted_in_window key opts [] buckets c e h = omega arith
granted_in_window key opts ((other, now) ∷ hits) buckets c e (early, h) = ground (
  arith,
  text_eq_iff other key,
  rate_limit_other other key opts now buckets,
  rate_limit_same other opts now buckets c,
  granted_in_window key opts hits (rate_limit other opts now buckets).1 c,
  granted_in_window key opts hits (rate_limit other opts now buckets).1
      (record c { count = c.count + 1 }),
)

-- The first request of a caller with no open window is allowed, and with it as many of the
-- requests that follow in the window as make up the limit, whatever other callers send meanwhile.
pub granted_per_window :
    (key : Text) (opts : RateLimitOptions) (now : ℕ) (hits : List Hit) (buckets : Buckets)
    → 1 ≤ opts.limit
    → (get key buckets ≡ none) ⊎ ((c : Counter) × (get key buckets ≡ some c) × (c.reset_at ≤ now))
    → ArriveBefore key (now + opts.window_ms) hits
    → granted key opts ((key, now) ∷ hits) buckets ≡ min (suc (hits_of key hits)) opts.limit
granted_per_window key opts now hits buckets pos h early = ground (
  arith,
  text_eq_refl key,
  rate_limit_fresh key opts now buckets h,
  granted_in_window key opts hits (rate_limit key opts now buckets).1
      (record { count = 1; reset_at = now + opts.window_ms }),
)
