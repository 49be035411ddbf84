-- ===== src/Tests/Worker.antt =====
-- The worker on the sample request.
use eps_dapp.Base.{◌≡◌, refl, true, false, some, codes, text_eq, Text, [], to_lower, includes}
use eps_dapp.Effects.{Error, ok, is_ok}
use eps_dapp.Solana.{
  get_solana_adapter, assert_not_mainnet_url, is_mainnet_url, get_rent_exempt_minimum, send,
  assert_valid_recipient, confirm, get_memo, decode_memo, first_memo,
}
use eps_dapp.Worker.{
  run_claimed, deliver_or_fail, deliver_with, signature_of, send_and_persist, send_with,
  persist_signature, verify_and_confirm, check_memo, mark_confirmed, expected_memo,
  process_service_request, take_candidate, claim_next, run_once, in_progress, process_resumed,
  process_mainnet,
}
use eps_dapp.Samples.{
  sample_env, sample_rpc, mainnet_rpc, sample_world, sample_request, resumed_request,
}

abbrev short_message : Error → Text
short_message e = codes "failed"

process_resumed_example :
    (process_service_request sample_env sample_rpc resumed_request sample_world).1.sent ≡ []
process_resumed_example =
    process_resumed sample_env sample_rpc resumed_request (codes "sig") sample_world refl

process_mainnet_example :
    ((process_service_request sample_env mainnet_rpc sample_request sample_world).1 ≡ sample_world)
    × (is_ok (process_service_request sample_env mainnet_rpc sample_request sample_world).0 ≡ false)
process_mainnet_example =
    process_mainnet sample_env mainnet_rpc sample_request sample_world
      (codes "https://api.Mainnet-beta.solana.com") refl (unfold is_mainnet_url in refl)

claim_run :
    (take_candidate sample_env (some sample_request) sample_world).0
    ≡ ok (some (in_progress sample_request))
unfolding take_candidate text_eq
claim_run = refl

second_claim_run :
    (take_candidate sample_env
      (some sample_request)
      (take_candidate sample_env (some sample_request) sample_world).1).0
    ≡ ok (some (in_progress sample_request))
unfolding take_candidate text_eq
second_claim_run = refl

once_run : (run_once sample_env sample_rpc short_message sample_world).0 ≡ ok true
unfolding run_once claim_next take_candidate run_claimed text_eq deliver_or_fail
    process_service_request get_solana_adapter assert_not_mainnet_url is_mainnet_url to_lower
    includes deliver_with signature_of send_and_persist get_rent_exempt_minimum send_with send
    assert_valid_recipient persist_signature verify_and_confirm confirm check_memo get_memo
    decode_memo first_memo mark_confirmed expected_memo
once_run = refl
