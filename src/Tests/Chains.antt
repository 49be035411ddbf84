-- ===== src/Tests/Chains.antt =====
-- A broadcast on an EVM chain whose memo is read back.
use eps_dapp.Base.{
  ℕ, zero, suc, ◌+◌, ◌≡◌, refl, true, false, none, some, List, [], ◌∷◌, ◌++◌, arith, Text, codes,
  text_eq, Option, if◌then◌else◌, join_with,
}
use eps_dapp.Hex.{AreBytes, to_hex}
use eps_dapp.Json.{is_well_formed, json_string, escape_text, escape_unit}
use eps_dapp.Effects.{ok, evm_transaction}
use eps_dapp.Chains.Ids.{ChainId, ServiceRecord, BroadcastResult}
use eps_dapp.Chains.Evm.{
  Viem, EvmAdapter, build_memo, memo_calldata, is_forbidden, get_wallet, send_memo, evm_broadcast,
  evm_get_memo,
}
use eps_dapp.Chains.{ReadsUtf8, broadcast-anchors}
use eps_dapp.Samples.{sample_world}

abbrev sample_record : ServiceRecord
sample_record = record {
  delivery_id = codes "r1";
  document_hash = codes "ab";
  case_ref = codes "A v. B";
  served_to = codes "0x1";
  served_by = codes "eps";
  served_at = codes "now";
}

abbrev sepolia : EvmAdapter
sepolia = record {
  chain_id = ChainId.eth_sepolia;
  config = record {
    rpc_env_var = codes "EVM_RPC_ETH_SEPOLIA";
    fallback_rpc = codes "https://rpc.sepolia.org";
    is_mainnet = false;
  };
}

-- Texts as bytes: each unit is as many ones as it counts, and a zero.
abbrev unary : ℕ → List ℕ → List ℕ
unary zero rest = 0 ∷ rest
unary (suc n) rest = 1 ∷ unary n rest

abbrev encode_unary : Text → List ℕ
encode_unary [] = []
encode_unary (c ∷ s) = unary c (encode_unary s)

abbrev decode_after : ℕ → List ℕ → Text
decode_after n [] = []
decode_after n (zero ∷ bytes) = n ∷ decode_after 0 bytes
decode_after n (suc b ∷ bytes) = decode_after (suc n) bytes

unary-AreBytes : (n : ℕ) (rest : List ℕ) → AreBytes rest → AreBytes (unary n rest)
unary-AreBytes zero rest h = (omega arith, h)
unary-AreBytes (suc n) rest h = (omega arith, unary-AreBytes n rest h)

encode-AreBytes : (text : Text) → AreBytes (encode_unary text)
encode-AreBytes [] = tt
encode-AreBytes (c ∷ s) = unary-AreBytes c (encode_unary s) (encode-AreBytes s)

decode-unary :
    (m n : ℕ) (rest : List ℕ) → decode_after m (unary n rest) ≡ (m + n) ∷ decode_after 0 rest
decode-unary m zero rest = ground arith
decode-unary m (suc n) rest = ground (arith, decode-unary (suc m) n rest)

decode-encode : (text : Text) → decode_after 0 (encode_unary text) ≡ text
decode-encode [] = refl
decode-encode (c ∷ s) = ground (arith, decode-unary 0 c (encode_unary s), decode-encode s)

abbrev sample_key : Text → Option Text
unfolding text_eq
sample_key name =
    if text_eq name (codes "EVM_APP_WALLET_PRIVATE_KEY") then some (codes "0xkey") else none

-- A node that gives the calldata of the memo back for every transaction.
abbrev sample_viem : Viem
sample_viem = record {
  variable = sample_key;
  address_of_key = λ key. ok (codes "0xapp");
  encode_call = λ memo. memo;
  encode_utf8 = encode_unary;
  decode_utf8 = decode_after 0;
  send_transaction = λ t endpoint key to calldata. ok (codes "0xhash");
  wait_for_receipt = λ t endpoint hash. ok (record { block_hash = hash; block_number = 1 });
  block_timestamp = λ t endpoint hash. ok 1;
  transaction_input =
      λ t endpoint hash. ok (some (codes "0x" ++ to_hex (encode_unary (build_memo sample_record))));
}

sample_reads : ReadsUtf8 sample_viem
sample_reads = record {
  utf8_empty = refl;
  utf8_bytes = encode-AreBytes;
  utf8_round = λ text h. decode-encode text;
}

abbrev sample_sent : BroadcastResult
sample_sent = record { tx_id = codes "0xhash"; chain_id = ChainId.eth_sepolia }

broadcast_run : (evm_broadcast sample_viem sepolia sample_record sample_world).0 ≡ ok sample_sent
unfolding evm_broadcast is_forbidden get_wallet send_memo text_eq
broadcast_run = refl

well_formed_run : is_well_formed (build_memo sample_record) ≡ true
unfolding is_well_formed build_memo json_string escape_text escape_unit join_with
well_formed_run = refl

broadcast-anchors_example :
    ((address : Text) × ((evm_broadcast sample_viem sepolia sample_record sample_world).1.outbox
        ≡ evm_transaction address (memo_calldata sample_viem (build_memo sample_record)) ∷ []))
    × ((evm_get_memo sample_viem sepolia (codes "0xhash") sample_world).0
        ≡ ok (some (build_memo sample_record)))
broadcast-anchors_example =
    broadcast-anchors sample_viem sepolia sample_record sample_world sample_world sample_sent
      sample_reads well_formed_run (unfold text_eq in refl) broadcast_run
      (unfold memo_calldata in refl)
