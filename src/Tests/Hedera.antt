-- ===== src/Tests/Hedera.antt =====
-- A proof on Hedera whose metadata are too long, and one that is anchored.
use eps_dapp.Base.{◌≡◌, ◌⊎◌, refl, Option, none, arith, codes, text_eq}
use eps_dapp.Effects.{ok, crashed}
use eps_dapp.Hedera.Sdk.{build_client}
use eps_dapp.Hedera.Service.{
  HederaPayload, HtsMintResult, mint_proof_nft, mint_if, mint_with, payload_json,
}
use eps_dapp.Hedera.Tasks.{anchor_on_hedera}
use eps_dapp.Hedera.{EncodesUtf8, CapsMetadata, mint_proof_nft-none, bare_requests, anchor-bare}
use eps_dapp.Variables.{is_set_to}
use eps_dapp.Json.{json_string, escape_text, escape_unit}
use eps_dapp.Base.{join_with}
use eps_dapp.Calendar.{to_iso_string}
use eps_dapp.Samples.{sample_env, sample_world, sample_db}
use eps_dapp.Tests.Services.{sample_hedera}

sample_utf8 : EncodesUtf8 sample_hedera
sample_utf8 = record { utf8-length = λ text. omega arith }

sample_caps : CapsMetadata sample_hedera
sample_caps = record { metadata_too_long = λ t mainnet id metadata tx later e long. ground arith }

abbrev sample_payload : HederaPayload
sample_payload = record {
  delivery_id = codes "r1";
  document_hash = codes "ab";
  case_ref = codes "A v. B";
  served_to = codes "wallet";
  served_by = codes "eps-agent";
}

mint_run : (mint_proof_nft sample_env sample_hedera sample_payload sample_world).0 ≡ ok none
unfolding mint_proof_nft text_eq build_client is_set_to mint_if mint_with payload_json json_string
    escape_text escape_unit join_with to_iso_string
mint_run = refl

mint_proof_nft-none_example : ◌≡◌ {A = Option HtsMintResult} none none
mint_proof_nft-none_example =
    mint_proof_nft-none sample_env sample_hedera sample_payload sample_utf8 sample_caps sample_world
      none mint_run

anchor-bare_example :
    (bare_requests
        (anchor_on_hedera sample_env sample_hedera (codes "r1") sample_payload sample_world).1.db
      ≡ bare_requests sample_db)
    × (((anchor_on_hedera sample_env sample_hedera (codes "r1") sample_payload sample_world).0
          ≡ ok tt)
        ⊎ ((anchor_on_hedera sample_env sample_hedera (codes "r1") sample_payload sample_world).0
            ≡ crashed))
anchor-bare_example = anchor-bare sample_env sample_hedera (codes "r1") sample_payload sample_world
