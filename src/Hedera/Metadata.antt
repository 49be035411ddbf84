-- ===== src/Hedera/Metadata.antt =====
-- lib/hedera: the size of the metadata of the tokens, and what comes of it.
use eps_dapp.Base.{
  ap, if◌then◌else◌, le→leb, ℕ, ◌+◌, ◌≤◌, ◌<◌, leb, all, inl, inr, ◌≡◌, true, false, Bool, Option,
  none, some, List, length, length-append, length-take, ltb, take, arith, Text, is_empty,
  Bool-cases, join_with,
}
use eps_dapp.Json.{json_string, escape_text, escape_unit}
use eps_dapp.Variables.{text_variable}
use eps_dapp.Db.{Db}
use eps_dapp.Effects.{
  Result-cases, >>=-keeps, World, Env, ok, is_ok, >>=-inv, catch-inv, pure, Outgoing, nft_minted,
}
use eps_dapp.Hedera.Sdk.{Hedera, build_client, on_mainnet}
use eps_dapp.Hedera.Service.{
  HederaPayload, HtsMintResult, mint_with, mint_if, mint_proof_nft, payload_json,
}
use eps_dapp.Hedera.Transfer.{
  ProofNftMetadata, nft_metadata, meta_uri, mint_serial, resolve_token, resolve_defendant,
  transfer_serial, transfer_minted, mint_and_transfer_token, mint_and_transfer_as,
  mint_and_transfer_by_operator, mint_and_transfer_proof_nft,
}

-- UTF-8 has at least one byte for each unit.
pub record EncodesUtf8 (h : Hedera) : Type 0 where
  pub utf8-length : (text : Text) → length text ≤ length (h.encode_utf8 text)

-- The service takes at most 100 bytes of metadata: for more, the receipt is an error.
pub record CapsMetadata (h : Hedera) : Type 0 where
  pub metadata_too_long :
      (t : ℕ) (mainnet : Bool) (token : Text) (metadata : List ℕ) (tx : Text) (later : ℕ)
      → h.mint t mainnet token metadata ≡ ok tx
      → 100 < length metadata
      → is_ok (h.mint_receipt later tx) ≡ false

payload_json-length : (p : HederaPayload) (now : ℕ) → 100 < length (payload_json p "mintedAt" now)
unfolding payload_json json_string escape_text escape_unit join_with
payload_json-length p now = simp length-append (omega arith)

module _ (env : Env) (h : Hedera) (payload : HederaPayload) (utf8 : EncodesUtf8 h)
    (caps : CapsMetadata h) where
  mint_with-fails :
      (token : Text) (metadata : List ℕ) (mainnet : Bool) (w : World)
      → 100 < length metadata
      → is_ok (mint_with env h payload token metadata mainnet w).0 ≡ false
  unfolding mint_with
  mint_with-fails token metadata mainnet w long = elim (Result-cases (h.parse_token token)) [
    | inl (parsed, e) ↦ elim (Result-cases (h.mint w.tick mainnet parsed metadata)) [
      | inl (tx, k) ↦ ground (
        arith,
        e,
        k,
        caps.metadata_too_long w.tick mainnet parsed metadata tx (w.tick + 1) k long,
      )
      | inr other ↦ ground (arith, e, other)
    ]
    | inr other ↦ ground (arith, other)
  ]

  mint_if-none :
      (token : Text) (client : Option Bool) (w : World) (result : Option HtsMintResult)
      → (mint_if env h payload token client w).0 ≡ ok result
      → result ≡ none
  unfolding mint_if
  mint_if-none token none w result e = ground arith
  mint_if-none token (some mainnet) w result e =
      let text = payload_json payload "mintedAt" (env.now w.tick) in
      let long : 100 < length (h.encode_utf8 text) =
        omega (arith, utf8.utf8-length text, payload_json-length payload (env.now w.tick)) in
      catch-inv (λ r. r.0 ≡ ok result → result ≡ none)
        (mint_with env h payload token (h.encode_utf8 text) mainnet) (λ e. pure none) w
        (λ a k l.
          absurd (ground (arith, mint_with-fails token (h.encode_utf8 text) mainnet w long)))
        (λ e k l. ground arith) (λ k l. absurd (ground arith)) e

  -- `mintProofNFT` never mints anything that it can answer: its metadata are longer than the 100
  -- bytes that the service takes, whatever the request. A text is at least as long in UTF-8 as in
  -- units.
  pub mint_proof_nft-none :
      (w : World) (result : Option HtsMintResult)
      → (mint_proof_nft env h payload w).0 ≡ ok result
      → result ≡ none
  unfolding mint_proof_nft
  mint_proof_nft-none w result =
      elim (Bool-cases (is_empty (text_variable h.variables "HEDERA_NFT_TOKEN_ID"))) [
        | inl e ↦ λ k. ground (arith, e)
        | inr e ↦ simp e (
            >>=-inv (λ r. r.0 ≡ ok result → result ≡ none) (build_client h) w
              (mint_if env h payload (text_variable h.variables "HEDERA_NFT_TOKEN_ID"))
              (λ client k l. mint_if-none _ client _ result l) (λ r k l m. absurd (ground arith)))
      ]

-- A token's metadata are of at most 100 bytes.
unfoldable pub fits : Outgoing → Bool
fits (nft_minted token metadata) = leb (length metadata) 100
fits other = true

-- What the steps of a mint and transfer keep: that all metadata fit, and the tables.
abbrev kept_parts : World → Bool × Db
kept_parts w = (all fits w.outbox, w.db)

length-cut :
    (bytes : List ℕ) → length (if ltb 100 (length bytes) then take 99 bytes else bytes) ≤ 100
length-cut bytes = elim (Bool-cases (ltb 100 (length bytes))) [
  | inl e ↦ simp e (omega (arith, length-take 99 bytes))
  | inr e ↦ simp e (ground arith)
]

module _ (h : Hedera) where
  metadata_fits :
      (token : Text) (meta : ProofNftMetadata)
      → fits (nft_minted token (nft_metadata h meta)) ≡ true
  unfolding fits nft_metadata
  metadata_fits token meta = le→leb _ 100 (length-cut (h.encode_utf8 (meta_uri h meta)))

  module _ (mainnet : Bool) (operator : Text) where
    token-keeps : (w : World) → kept_parts (resolve_token h mainnet operator w).1 ≡ kept_parts w
    unfolding resolve_token fits
    token-keeps w = ground arith

    serial-keeps :
        (token : Text) (meta : ProofNftMetadata) (w : World)
        → kept_parts (mint_serial h mainnet operator token meta w).1 ≡ kept_parts w
    unfolding mint_serial
    serial-keeps token meta w = ground (arith, metadata_fits token meta)

    defendant-keeps :
        (w : World) → kept_parts (resolve_defendant h mainnet operator w).1 ≡ kept_parts w
    unfolding resolve_defendant fits
    defendant-keeps w = ground arith

    transfer-keeps :
        (token : Text) (serial : ℕ) (defendant : Text × Bool) (w : World)
        → kept_parts (transfer_serial h mainnet operator token serial defendant w).1 ≡ kept_parts w
    unfolding transfer_serial fits
    transfer-keeps token serial defendant w = ground arith

    minted-keeps :
        (token : Text) (serial : ℕ) (w : World)
        → kept_parts (transfer_minted h mainnet operator token serial w).1 ≡ kept_parts w
    unfolding transfer_minted
    minted-keeps token serial w =
        >>=-keeps kept_parts (resolve_defendant h mainnet operator)
          (transfer_serial h mainnet operator token serial) w (defendant-keeps w)
          (transfer-keeps token serial)

    token_then-keeps :
        (meta : ProofNftMetadata) (token : Text) (w : World)
        → kept_parts (mint_and_transfer_token h mainnet operator meta token w).1 ≡ kept_parts w
    unfolding mint_and_transfer_token
    token_then-keeps meta token w =
        >>=-keeps kept_parts (mint_serial h mainnet operator token meta)
          (transfer_minted h mainnet operator token) w (serial-keeps token meta w)
          (minted-keeps token)

    as-keeps :
        (meta : ProofNftMetadata) (w : World)
        → kept_parts (mint_and_transfer_as h mainnet operator meta w).1 ≡ kept_parts w
    unfolding mint_and_transfer_as
    as-keeps meta w =
        >>=-keeps kept_parts (resolve_token h mainnet operator)
          (mint_and_transfer_token h mainnet operator meta) w (token-keeps w)
          (token_then-keeps meta)

  by_operator-keeps :
      (meta : ProofNftMetadata) (w : World)
      → kept_parts (mint_and_transfer_by_operator h meta w).1 ≡ kept_parts w
  unfolding mint_and_transfer_by_operator
  by_operator-keeps meta w =
      elim (Result-cases (h.parse_key (text_variable h.variables "HEDERA_OPERATOR_KEY"))) [
        | inl (key, e) ↦
            elim (Result-cases (h.parse_account (text_variable h.variables "HEDERA_OPERATOR_ID"))) [
              | inl (operator, k) ↦ ground (arith, e, k, as-keeps (on_mainnet h) operator meta w)
              | inr other ↦ ground (arith, e, other)
            ]
        | inr other ↦ ground (arith, other)
      ]

  -- Whatever the topic and its number, the token that is minted and transferred has metadata of at
  -- most 100 bytes.
  pub mint_and_transfer-fits :
      (meta : ProofNftMetadata) (w : World)
      → all fits w.outbox ≡ true
      → all fits (mint_and_transfer_proof_nft h meta w).1.outbox ≡ true
  unfolding mint_and_transfer_proof_nft
  mint_and_transfer-fits meta w e = ground (arith, ap (λ k. k.0) (by_operator-keeps meta w))

  -- The tables are left alone.
  pub mint_and_transfer-keeps :
      (meta : ProofNftMetadata) (w : World) → (mint_and_transfer_proof_nft h meta w).1.db ≡ w.db
  unfolding mint_and_transfer_proof_nft
  mint_and_transfer-keeps meta w = ground (arith, ap (λ k. k.1) (by_operator-keeps meta w))
