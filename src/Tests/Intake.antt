-- ===== src/Tests/Intake.antt =====
-- Intake, storage and the upload of a small document.
use mathlib.Core.List.{Memᴰ}
use eps_dapp.Upload.{
  UploadedFile, with_file, Sniffed, uploaded, allowed_signatures, store_upload, store_matching,
  sniff_and_store, post_upload,
}
use eps_dapp.Upload.Accepted.{IsAccepted, post_upload-IsAccepted}
use eps_dapp.Base.{
  List, Option, ℕ, ◌++◌, ◌≡◌, refl, true, false, some, [], ◌∷◌, arith, codes, text_eq, Text,
}
use eps_dapp.Effects.{Result, ok, is_ok}
use eps_dapp.Memo.{build_service_memo}
use eps_dapp.Quota.{check_and_decrement_quota, consume_found, consume_from, tier_quota, increment}
use eps_dapp.Storage.{
  Vault, OpensSealed, StoredDocument, load_key, get_s3, put_sealed, encrypt_and_put, store_document,
  Stored, store_document-Stored,
}
use eps_dapp.Hex.{to_hex, from_hex}
use eps_dapp.Intake.{
  CreateServiceRequestInput, StagedServiceRequest, create_request, audit_staged, stage_stored,
  store_and_stage, charge_and_stage, generate_notice_token, create_service_request, Staged,
  intake-Staged, intake-memo,
}
use eps_dapp.Db.{ServiceStatus, ServiceRequest}
use eps_dapp.Worker.{expected_memo}
use eps_dapp.Samples.{sample_env, offline_env, sample_latest, sample_world, sample_db}

abbrev pair_of_hex : Text
pair_of_hex = codes "0a0a0a0a0a0a0a0a0a0a0a0a0a0a0a0a"

-- A vault whose cipher changes nothing.
abbrev sample_vault : Vault
sample_vault = record {
  encryption_key = some (codes "0a0a0a0a0a0a0a0a0a0a0a0a0a0a0a0a0a0a0a0a0a0a0a0a0a0a0a0a0a0a0a0a");
  endpoint = some (codes "http://minio");
  access_key = some (codes "a");
  secret_key = some (codes "s");
  from_base64 = λ text. text;
  sha256 = λ bytes. 171 ∷ [];
  seal = λ key nonce plain. (plain, 1 ∷ []);
  unseal = λ key nonce tag sealed. ok sealed;
  put_answer = λ t. ok tt;
}

sample_opens : OpensSealed sample_vault
sample_opens = record {
  opens = λ key nonce plain. refl;
  tag_bytes = λ key nonce plain. (omega arith, tt);
}

-- The object is named after the tick at which its id is drawn.
abbrev sample_stored : ℕ → StoredDocument
sample_stored tick = record {
  object_key = codes "documents/id" ++ tick ∷ [];
  sha256 = codes "ab";
  iv = codes "07";
  auth_tag = codes "01";
}

store_run :
    (store_document sample_vault sample_env (1 ∷ 2 ∷ []) sample_world).0 ≡ ok (sample_stored 1)
unfolding store_document load_key get_s3 put_sealed encrypt_and_put to_hex from_hex
store_run = refl

store_document-Stored_example :
    Stored sample_vault
      (1 ∷ 2 ∷ [])
      sample_world
      (sample_stored 1)
      (store_document sample_vault sample_env (1 ∷ 2 ∷ []) sample_world).1
store_document-Stored_example =
    store_document-Stored sample_vault sample_env (1 ∷ 2 ∷ []) sample_world (sample_stored 1)
      sample_opens (λ t n. (omega arith, tt)) store_run

abbrev sample_input : CreateServiceRequestInput
sample_input = record {
  org_id = codes "org_1";
  actor_id = codes "user_1";
  case_caption = codes "A v. B";
  plaintiff_name = codes "A";
  defendant_name = codes "B";
  recipient_wallet = codes "wallet";
  court_order_flag = true;
  document = 1 ∷ 2 ∷ [];
}

offline_intake :
    is_ok (create_service_request sample_vault offline_env sample_input sample_world).0 ≡ false
unfolding create_service_request generate_notice_token charge_and_stage check_and_decrement_quota
offline_intake = refl

abbrev sample_answer : StagedServiceRequest
sample_answer = record {
  id = codes "id" ++ 6 ∷ [];
  status = ServiceStatus.staged;
  notice_token = codes "07";
  object_key = codes "documents/id" ++ 4 ∷ [];
  sha256 = codes "ab";
}

intake_run :
    (create_service_request sample_vault sample_env sample_input sample_world).0 ≡ ok sample_answer
unfolding create_service_request generate_notice_token charge_and_stage check_and_decrement_quota
    consume_found consume_from tier_quota increment text_eq store_and_stage store_document load_key
    get_s3 put_sealed encrypt_and_put to_hex from_hex stage_stored create_request audit_staged
intake_run = refl

intake-Staged_example :
    Staged sample_input sample_db
      (create_service_request sample_vault sample_env sample_input sample_world).1.db
      sample_answer
intake-Staged_example =
    intake-Staged sample_vault sample_env sample_input sample_world sample_answer sample_latest
      intake_run

intake-memo_example :
    (row : ServiceRequest) × Memᴰ row
      (create_service_request sample_vault sample_env sample_input sample_world).1.db.requests
    × (expected_memo row
        ≡ build_service_memo (record {
          sha256 = codes "ab";
          notice_token = codes "07";
          service_id = codes "id" ++ 6 ∷ [];
        }))
intake-memo_example =
    intake-memo sample_vault sample_env sample_input sample_world sample_answer sample_latest
      intake_run

-- A document that is declared and recognized as a PDF.
abbrev sample_file : UploadedFile
sample_file = record { declared_mime = codes "application/pdf"; bytes = 1 ∷ 2 ∷ [] }

abbrev sample_sniff : ℕ → List ℕ → Result (Option Sniffed)
sample_sniff t bytes = ok (some (record { mime = codes "application/pdf"; ext = codes "pdf" }))

upload_run :
    (post_upload sample_env sample_vault sample_sniff (with_file sample_file) sample_world).0
    ≡ ok (uploaded (codes "application/pdf") (codes "pdf") 2 (sample_stored 2))
unfolding post_upload sniff_and_store allowed_signatures text_eq store_matching store_upload
    store_document load_key get_s3 put_sealed encrypt_and_put to_hex from_hex
upload_run = refl

post_upload-IsAccepted_example :
    IsAccepted sample_vault sample_sniff sample_file sample_world
      (post_upload sample_env sample_vault sample_sniff (with_file sample_file) sample_world).1
      (codes "application/pdf")
      (codes "pdf")
      2
      (sample_stored 2)
post_upload-IsAccepted_example =
    post_upload-IsAccepted sample_env sample_vault sample_sniff sample_opens
      (λ t n. (omega arith, tt)) sample_file (codes "application/pdf") (codes "pdf") 2
      (sample_stored 2) sample_world upload_run
