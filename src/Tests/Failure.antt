-- ===== src/Tests/Failure.antt =====
-- A delivery that failed for good.
use eps_dapp.Base.{◌≡◌, refl, true, false, none, some, codes, text_eq}
use eps_dapp.Effects.{ok, is_ok}
use eps_dapp.Quota.{restore_quota, restore_found}
use eps_dapp.Failure.{
  FailServiceRequestInput, fail_service_request, fail_body, restore_and_audit, audit_failure,
  Recorded, fail-Recorded,
}
use eps_dapp.Samples.{sample_env, offline_env, sample_world, sample_db}

abbrev timed_out : FailServiceRequestInput
timed_out = record {
  service_request_id = codes "r1";
  org_id = some (codes "o1");
  reason = codes "timeout";
  tx_signature = none;
}

fail_run : (fail_service_request sample_env timed_out sample_world).0 ≡ ok true
unfolding fail_service_request fail_body text_eq restore_and_audit restore_quota restore_found
    audit_failure
fail_run = refl

offline_fail : is_ok (fail_service_request offline_env timed_out sample_world).0 ≡ false
unfolding fail_service_request fail_body
offline_fail = refl

fail-Recorded_example :
    Recorded sample_env timed_out sample_db
      (fail_service_request sample_env timed_out sample_world).1.db
      true
fail-Recorded_example = fail-Recorded sample_env timed_out true sample_world fail_run
