-- ===== src/Tests/RateLimit.antt =====
-- The limiters on a few requests.
use eps_dapp.Base.{◌≡◌, refl, inl, arith, [], ◌∷◌, codes, Text, Option, some, before, trim, text_eq}
use eps_dapp.Base.Dict.{get}
use eps_dapp.RateLimit.{granted, granted_per_window, SameAnswer, Agrees, rate_limit-Agrees}
use eps_dapp.RateLimit.Fixed
use eps_dapp.RateLimit.Fixed.{RateLimitOptions}
use eps_dapp.RateLimit.Lru
use eps_dapp.RateLimit.Lru.{Bucket, rate_limit_capped}
use eps_dapp.RateLimit.Client.{client_key}

abbrev two_a_second : RateLimitOptions
two_a_second = record { limit = 2; window_ms = 1000 }

abbrev alice : Text
alice = codes "10.0.0.1"

abbrev bob : Text
bob = codes "10.0.0.2"

abbrev old_bucket : Lru.Buckets
old_bucket = (bob, record { count = 1; reset_at = 500 }) ∷ []

first_of_list : client_key (some (codes " 10.0.0.1, 172.16.0.1")) Option.none ≡ alice
unfolding client_key trim before
first_of_list = refl

-- Alice asks four times in a second, Bob once.
granted_per_window_example :
    granted alice two_a_second
      ((alice, 10) ∷ (alice, 20) ∷ (bob, 30) ∷ (alice, 40) ∷ (alice, 50) ∷ [])
      []
    ≡ 2
unfolding text_eq
granted_per_window_example =
    granted_per_window alice two_a_second 10
      ((alice, 20) ∷ (bob, 30) ∷ (alice, 40) ∷ (alice, 50) ∷ []) [] (omega arith)
      (inl (unfold get in refl))
      ((λ e. omega arith), ((λ e. omega arith), ((λ e. omega arith), ((λ e. omega arith), tt))))

rate_limit-Agrees_example :
    SameAnswer (Fixed.rate_limit alice two_a_second 10 []).0 (Lru.rate_limit alice 2 1000 10 []).0
    × Agrees (Fixed.rate_limit alice two_a_second 10 []).1 (Lru.rate_limit alice 2 1000 10 []).1
rate_limit-Agrees_example =
    rate_limit-Agrees alice two_a_second 10 [] [] (omega arith) (omega arith)
      (λ key. unfold get in tt)
