-- ===== src/Http.antt =====
-- What the handlers share: a JSON body whose fields are of any type, the caller's headers, and the
-- two rate limiters as they stand in the process.
use eps_dapp.Base.{ℕ, Bool, Option, Text}
use eps_dapp.RateLimit.Fixed
use eps_dapp.RateLimit.Lru
use eps_dapp.RateLimit.Client.{client_key, client_ip_from_headers}
use eps_dapp.Effects.{Action, Env, ok}

-- A field of a body that was parsed: missing, `null`, a text, a boolean, or anything else.
pub data Field : Type 0 where
  missing null other : Field
  text : Text → Field
  boolean : Bool → Field

-- `await req.json()`: it throws, or gives an object of some fields, or another value.
pub data Body (Fields : Type 0) : Type 0 where
  malformed_json not_an_object : Body Fields
  fields : Fields → Body Fields

pub record Caller : Type 0 where
  pub forwarded_for : Option Text
  pub real_ip : Option Text

module _ (env : Env) where
  -- `rateLimit` of lib/rate-limit.ts.
  abbrev pub count_fixed : Text → Fixed.RateLimitOptions → Action Fixed.RateLimitResult
  count_fixed key opts w =
      let counted = Fixed.rate_limit key opts (env.now w.tick) w.buckets in
      (ok counted.0, record w { buckets = counted.1 })

  -- `rateLimit` of lib/rateLimit.ts.
  abbrev pub count_lru : Text → ℕ → ℕ → Action Lru.RateLimitResult
  count_lru key limit window_ms w =
      let counted = Lru.rate_limit key limit window_ms (env.now w.tick) w.lru_buckets in
      (ok counted.0, record w { lru_buckets = counted.1 })

abbrev pub caller_key : Caller → Text
caller_key caller = client_key caller.forwarded_for caller.real_ip

abbrev pub caller_ip : Caller → Text
caller_ip caller = client_ip_from_headers caller.forwarded_for caller.real_ip
