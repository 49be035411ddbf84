-- ===== src/Tests/Services.antt =====
-- Sample services: a session, a caller, an ENS client, viem, the Hedera SDK and a mail service.
use eps_dapp.Base.{true, none, some, [], length, leb, is_empty, if◌then◌else◌, codes, text_eq}
use eps_dapp.Auth.{Session}
use eps_dapp.Http.{Caller}
use eps_dapp.Effects.{ok, err, external}
use eps_dapp.Variables.{Variables}
use eps_dapp.Ens.Resolver.{EnsClient}
use eps_dapp.Hedera.Sdk.{Hedera}
use eps_dapp.Notice.Mail.{Mailer}

abbrev pub sample_session : Session
sample_session = record {
  user_id = some (codes "user_1");
  org_id = some (codes "org_1");
  has_role = λ role. true;
}

abbrev pub sample_caller : Caller
sample_caller = record { forwarded_for = some (codes "10.0.0.1"); real_ip = none }

abbrev pub no_variables : Variables
no_variables name = none

abbrev pub sample_ens : EnsClient
sample_ens = record {
  address_record = λ t name. ok none;
  name_of = λ t address. ok none;
  text_record = λ t name key. ok none;
}

abbrev pub sample_variables : Variables
sample_variables name =
    if text_eq name (codes "HEDERA_OPERATOR_ID")
    then some (codes "0.0.1")
    else if text_eq name (codes "HEDERA_OPERATOR_KEY")
    then some (codes "key")
    else if text_eq name (codes "HEDERA_NFT_TOKEN_ID")
    then some (codes "0.0.2")
    else if text_eq name (codes "HEDERA_HCS_TOPIC_ID")
    then some (codes "0.0.3")
    else if text_eq name (codes "NEXT_PUBLIC_DEMO_MODE")
    then some (codes "true")
    else none

-- Hedera as it answers: the receipt of a mint with more than 100 bytes is an error. An ASCII text
-- is its own UTF-8.
abbrev pub sample_hedera : Hedera
sample_hedera = record {
  variables = sample_variables;
  parse_key = λ key. ok tt;
  parse_account = λ id. ok id;
  parse_token = λ id. ok id;
  parse_topic = λ id. ok id;
  encode_utf8 = λ text. text;
  submit_message = λ t mainnet id message. ok (codes "tx");
  message_receipt =
      λ t tx. ok (record { topic_sequence_number = some 4; consensus_timestamp = none });
  create_token = λ t mainnet. ok (codes "tx");
  token_receipt = λ t tx. ok (some (codes "0.0.2"));
  mint = λ t mainnet id metadata. ok (if leb (length metadata) 100 then codes "tx" else []);
  mint_receipt =
      λ t tx. if is_empty tx then err (external (codes "METADATA_TOO_LONG")) else ok (some 9);
  create_account = λ t mainnet. ok (codes "tx");
  account_receipt = λ t tx. ok (some (codes "0.0.5"));
  transfer_token = λ t mainnet id serial from to. ok (codes "tx");
  transfer_receipt = λ t tx. ok tt;
}

-- Nothing is configured.
abbrev pub unset_hedera : Hedera
unset_hedera = record sample_hedera { variables = no_variables }

abbrev pub sample_mailer : Mailer
sample_mailer = record {
  variables = λ name. some (codes "key");
  post_mail = λ t to subject body. ok true;
  send_mail = λ t to subject body. err (external (codes "unreachable"));
}
