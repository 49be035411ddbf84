-- ===== src/Tests/Solana.antt =====
-- Guards and memos on concrete values.
use eps_dapp.Base.{◌≡◌, refl, [], ◌∷◌, arith, codes, Text}
use eps_dapp.Memo.{ServiceMemoFields, build_service_memo-injective}
use eps_dapp.Solana.{Adapter, DeliverParams}

abbrev evm_address : Text
evm_address = codes "0xAb5801a7D398351b8bE11C439e05C5B3259aeC9B"

abbrev sample_adapter : Adapter
sample_adapter = record { url = codes "https://api.devnet.solana.com"; signer = codes "secret" }

abbrev to_evm : DeliverParams
to_evm = record { recipient_wallet = evm_address; lamports = 890880; memo_parts = codes "m" ∷ [] }

abbrev sample_fields : ServiceMemoFields
sample_fields = record { sha256 = codes "ab"; notice_token = codes "cd"; service_id = codes "r1" }

build_service_memo-injective_example : sample_fields ≡ sample_fields
build_service_memo-injective_example =
    build_service_memo-injective sample_fields sample_fields (ground arith) (ground arith)
      (ground arith) (ground arith) refl
