-- ===== src/Tests/Requests.antt =====
-- A request that is filed, and one that is read.
use eps_dapp.Base.{
  ◌≡◌, refl, true, false, none, some, [], ◌∷◌, ◌++◌, codes, text_eq, includes, trim,
}
use eps_dapp.Base.Dict
use mathlib.Core.List.{Memᴰ}
use eps_dapp.Auth.{require_user, require_auth}
use eps_dapp.Db.{ServiceStatus, ServiceRequest}
use eps_dapp.RateLimit.Fixed
use eps_dapp.Effects.{ok}
use eps_dapp.Chains.Address.{is_evm_address}
use eps_dapp.Quota.{check_and_decrement_quota, consume_found, consume_from, tier_quota, increment}
use eps_dapp.Solana.{assert_valid_recipient}
use eps_dapp.Ens.Resolver.{get_agent_ens_name}
use eps_dapp.Hedera.Service.{record_on_hedera, submit_to_hcs, mint_after, mint_proof_nft}
use eps_dapp.Hedera.Tasks.{anchor_on_hedera, persist_proofs}
use eps_dapp.Http.{text, boolean, missing, fields}
use eps_dapp.Worker.{expected_memo}
use eps_dapp.Requests.Input.{RawInput, parse_input}
use eps_dapp.Requests.Recipient.{resolve_recipient, looks_like_name}
use eps_dapp.Requests.Filing.{
  created, connect_and_add, create_filed, anchor_filed, stage_filed, charge_and_file,
  check_and_file, file_resolved, file_parsed, file_body, file_as, file_counted,
  post_service_request,
}
use eps_dapp.Requests.Reading.{
  ServiceView, service, in_org, read_service, read_as, read_counted, get_service_request,
}
use eps_dapp.Requests.{Says, post-Says, filed-memo, get-in_org}
use eps_dapp.Samples.{sample_env, sample_rpc, sample_world, sample_db, sample_request}
use eps_dapp.Tests.Services.{sample_session, sample_caller, sample_ens, unset_hedera}

abbrev sample_form : RawInput
sample_form = record {
  case_caption = text (codes " A v. B ");
  plaintiff_name = text (codes "A");
  defendant_name = text (codes "B");
  recipient_wallet = text (codes "wallet");
  recipient_ens_name = missing;
  recipient_resolved_address = missing;
  court_order_flag = missing;
  attested = boolean true;
}

filing_run :
    (post_service_request sample_env sample_rpc sample_ens unset_hedera sample_caller sample_session
      (fields sample_form)
      sample_world).0
    ≡ ok (created (codes "id" ++ 2 ∷ []) ServiceStatus.staged)
unfolding post_service_request Fixed.rate_limit file_counted file_as require_user file_body
    parse_input file_parsed resolve_recipient looks_like_name includes trim file_resolved
    get_agent_ens_name check_and_file is_evm_address assert_valid_recipient charge_and_file
    check_and_decrement_quota consume_found consume_from tier_quota increment text_eq stage_filed
    create_filed connect_and_add anchor_filed anchor_on_hedera record_on_hedera submit_to_hcs
    mint_after mint_proof_nft persist_proofs Dict.get
filing_run = refl

post-Says_example :
    Says
      (codes "user_1")
      (created (codes "id" ++ 2 ∷ []) ServiceStatus.staged)
      sample_db
      (post_service_request sample_env sample_rpc sample_ens unset_hedera sample_caller
        sample_session
        (fields sample_form)
        sample_world).1.db
post-Says_example =
    post-Says sample_env sample_rpc sample_ens unset_hedera sample_caller sample_session
      (fields sample_form) sample_world (created (codes "id" ++ 2 ∷ []) ServiceStatus.staged)
      filing_run

filed-memo_example :
    (row : ServiceRequest) × Memᴰ row
      (post_service_request sample_env sample_rpc sample_ens unset_hedera sample_caller
        sample_session
        (fields sample_form)
        sample_world).1.db.requests
    × (expected_memo row ≡ codes "||" ++ codes "id" ++ 2 ∷ [])
filed-memo_example =
    filed-memo sample_env sample_rpc sample_ens unset_hedera sample_caller sample_session
      (fields sample_form) sample_world (codes "id" ++ 2 ∷ []) ServiceStatus.staged filing_run

abbrev sample_view : ServiceView
sample_view = record { request = sample_request; access = none; has_certificate = false }

reading_run :
    (get_service_request sample_env sample_caller sample_session (codes "r1") sample_world).0
    ≡ ok (service sample_view)
unfolding get_service_request Fixed.rate_limit read_counted read_as require_auth read_service
    text_eq Dict.get
reading_run = refl

get-in_org_example :
    (in_org (codes "org_1") sample_db (some (codes "o1")) ≡ true)
    × ((get_service_request sample_env sample_caller sample_session (codes "r1") sample_world).1.db
        ≡ sample_db)
get-in_org_example =
    get-in_org sample_env sample_caller sample_session (codes "r1") sample_world sample_view
      reading_run
