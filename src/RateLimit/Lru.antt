-- ===== src/RateLimit/Lru.antt =====
-- lib/rateLimit.ts: `rateLimit` with its bounded map, whose oldest keys are evicted.
use eps_dapp.Base.{ℕ, ◌+◌, ◌-◌, Bool, none, some, [], ◌∷◌, leb, ltb, if◌then◌else◌, length, Text}
use eps_dapp.Base.Dict.{Dict, get, set, delete}

pub record Bucket : Type 0 where
  pub count : ℕ
  pub reset_at : ℕ

abbrev pub Buckets : Type 0
Buckets = Dict Bucket

pub record RateLimitResult : Type 0 where
  pub ok : Bool
  pub remaining : ℕ
  pub reset_at : ℕ

abbrev pub max_keys : ℕ
max_keys = 10000

-- The loop that deletes the oldest key while there are more than `cap` of them.
unfoldable pub evict : ℕ → Buckets → Buckets
evict cap [] = []
evict cap (entry ∷ older) =
    let rest = evict cap older in if ltb cap (length (entry ∷ older)) then rest else entry ∷ older

-- The bucket that counts the request, before the count, and the map without it. A fresh window
-- leaves an expired entry where it is.
unfoldable pub open_bucket : Text → ℕ → ℕ → Buckets → Bucket × Buckets
open_bucket key window_ms now buckets =
    let fresh : Bucket = record { count = 0; reset_at = now + window_ms } in
    elim (get key buckets) [
      | none ↦ (fresh, buckets)
      | some existing ↦
          if leb existing.reset_at now then (fresh, buckets) else (existing, delete key buckets)
    ]

-- The limiter with room for `cap` keys.
unfoldable pub rate_limit_capped : ℕ → Text → ℕ → ℕ → ℕ → Buckets → RateLimitResult × Buckets
unfolding open_bucket evict
rate_limit_capped cap key limit window_ms now buckets =
    let opened = open_bucket key window_ms now buckets in
    let bucket : Bucket = record opened.0 { count = opened.0.count + 1 } in
    (
      record {
        ok = leb bucket.count limit;
        remaining = limit - bucket.count;
        reset_at = bucket.reset_at;
      },
      evict cap (set key bucket opened.1),
    )

unfoldable pub rate_limit : Text → ℕ → ℕ → ℕ → Buckets → RateLimitResult × Buckets
unfolding rate_limit_capped
rate_limit = rate_limit_capped max_keys
