-- ===== src/Tests/Quota.antt =====
-- The meter of the sample subscription.
use mathlib.Core.List.{Memᴰ}
use eps_dapp.Base.{◌≡◌, refl, arith, codes, text_eq, true, false, some}
use eps_dapp.Db.{Subscription}
use eps_dapp.Effects.{ok, is_ok}
use eps_dapp.Quota.{
  check_and_decrement_quota, consume_found, consume_from, increment, restore_quota, restore_found,
  QuotaResult, Charged, Restored, AllWithin, HasUniqueId, tier_quota, consume-Charged,
  consume-AllWithin, restore-Restored,
}
use eps_dapp.Samples.{sample_env, offline_env, sample_latest, sample_world, sample_db}

abbrev second_of_nine : QuotaResult
second_of_nine = record { usage_count = 2; limit = 9 }

consume_run :
    (check_and_decrement_quota sample_env (codes "org_1") sample_world).0 ≡ ok second_of_nine
unfolding check_and_decrement_quota consume_found text_eq consume_from tier_quota increment
consume_run = refl

restore_run : (restore_quota sample_env (some (codes "o1")) sample_world).0 ≡ ok true
unfolding restore_quota restore_found text_eq
restore_run = refl

sample_unique :
    (s : Subscription) → Memᴰ s sample_db.subscriptions → HasUniqueId s sample_db.subscriptions
sample_unique s (Memᴰ.head e) = rw e (unfold text_eq in refl)
sample_unique s (Memᴰ.tail m) = elim m [ ]

sample-within : AllWithin sample_db
unfolding tier_quota
sample-within = ((λ limit e. ground arith), tt)

offline_run : is_ok (check_and_decrement_quota offline_env (codes "org_1") sample_world).0 ≡ false
unfolding check_and_decrement_quota
offline_run = refl

consume-Charged_example :
    Charged
      (codes "org_1")
      1001
      sample_db
      (check_and_decrement_quota sample_env (codes "org_1") sample_world).1.db
      second_of_nine
consume-Charged_example =
    consume-Charged sample_env (codes "org_1") sample_world second_of_nine sample_latest consume_run

consume-AllWithin_example :
    AllWithin (check_and_decrement_quota sample_env (codes "org_1") sample_world).1.db
consume-AllWithin_example =
    consume-AllWithin sample_env (codes "org_1") sample_world sample_latest sample_unique
      sample-within

restore-Restored_example :
    Restored sample_env
      (some (codes "o1"))
      sample_db
      (restore_quota sample_env (some (codes "o1")) sample_world).1.db
      true
restore-Restored_example =
    restore-Restored sample_env (some (codes "o1")) sample_world true restore_run
