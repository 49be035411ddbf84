-- ===== src/RateLimit/Fixed.antt =====
-- lib/rate-limit.ts: `rateLimit` and `rateLimitHeaders`. The module's `buckets` map is the state.
use eps_dapp.Base.{ℕ, ◌+◌, ◌-◌, ◌/◌, Bool, true, Option, none, some, leb, if◌then◌else◌, Text}
use eps_dapp.Base.Dict.{Dict, get, set}

-- Requests seen in the current window, and when it expires.
pub record Counter : Type 0 where
  pub count : ℕ
  pub reset_at : ℕ

abbrev pub Buckets : Type 0
Buckets = Dict Counter

pub record RateLimitResult : Type 0 where
  pub ok : Bool
  pub limit : ℕ
  pub remaining : ℕ
  pub reset_at : ℕ
  pub retry_after_seconds : ℕ

pub record RateLimitOptions : Type 0 where
  pub limit : ℕ
  pub window_ms : ℕ

-- `Math.ceil(ms / 1000)`.
abbrev pub seconds_up : ℕ → ℕ
seconds_up ms = (ms + 999) / 1000

-- The branch that starts a fresh window.
pub fresh_window : Text → RateLimitOptions → ℕ → Buckets → RateLimitResult × Buckets
fresh_window key opts now buckets = (
  record {
    ok = true;
    limit = opts.limit;
    remaining = opts.limit - 1;
    reset_at = now + opts.window_ms;
    retry_after_seconds = seconds_up opts.window_ms;
  },
  set key (record { count = 1; reset_at = now + opts.window_ms }) buckets,
)

-- The branch that counts one more request in a window that is open. The entry of the map is
-- changed in place, so that it keeps its position.
pub same_window : Text → RateLimitOptions → ℕ → Counter → Buckets → RateLimitResult × Buckets
same_window key opts now existing buckets =
    let seen : ℕ = existing.count + 1 in
    (
      record {
        ok = leb seen opts.limit;
        limit = opts.limit;
        remaining = opts.limit - seen;
        reset_at = existing.reset_at;
        retry_after_seconds = seconds_up (existing.reset_at - now);
      },
      set key (record existing { count = seen }) buckets,
    )

unfoldable pub rate_limit : Text → RateLimitOptions → ℕ → Buckets → RateLimitResult × Buckets
unfolding fresh_window same_window
rate_limit key opts now buckets = elim (get key buckets) [
  | none ↦ fresh_window key opts now buckets
  | some existing ↦
      if leb existing.reset_at now
      then fresh_window key opts now buckets
      else same_window key opts now existing buckets
]

-- The numbers in the response's headers; `Retry-After` only on a refusal.
pub record RateLimitHeaders : Type 0 where
  pub rate_limit : ℕ
  pub rate_remaining : ℕ
  pub rate_reset : ℕ
  pub retry_after : Option ℕ

unfoldable pub rate_limit_headers : RateLimitResult → RateLimitHeaders
rate_limit_headers result = record {
  rate_limit = result.limit;
  rate_remaining = result.remaining;
  rate_reset = result.retry_after_seconds;
  retry_after = if result.ok then none else some result.retry_after_seconds;
}
