-- ===== src/Storage/Documents.antt =====
-- `loadKey`, `getS3`, `storeDocument` and `decryptDocument`. The object's name and its bytes go to
-- the world's list of objects if the PUT goes through.
use eps_dapp.Base.{
  ℕ, ◌+◌, Bool, ◌&&◌, ◌||◌, Option, List, [], ◌∷◌, ◌++◌, ◌==◌, if◌then◌else◌, length, or_else, Text,
  codes, is_empty,
}
use eps_dapp.Effects.{
  Action, Env, Result, ok, err, crashed, ◌>>=◌, ◌>>◌, pure, throw, call, not_set, bad_key_length,
  storage_not_configured,
}
use eps_dapp.Hex.{is_hex, to_hex, from_hex}
use eps_dapp.Storage.Crypto.{Vault}

pub record StoredDocument : Type 0 where
  pub object_key : Text
  pub sha256 : Text
  pub iv : Text
  pub auth_tag : Text

abbrev pub key_bytes : ℕ
key_bytes = 32

abbrev pub iv_bytes : ℕ
iv_bytes = 12

module _ (v : Vault) where
  -- The raw key is 64 hexadecimal digits, or else base64.
  abbrev pub decoded_key : Text → List ℕ
  decoded_key raw = if (length raw == 64) && is_hex raw then from_hex raw else v.from_base64 raw

  unfoldable pub load_key : Result (List ℕ)
  load_key =
      let raw = or_else v.encryption_key [] in
      let key = decoded_key raw in
      if is_empty raw
      then err (not_set (codes "STORAGE_ENCRYPTION_KEY"))
      else if length key == key_bytes
      then ok key
      else err (bad_key_length (length key))

  abbrev pub is_unset : Option Text → Bool
  is_unset value = is_empty (or_else value [])

  -- The check of `getS3`.
  unfoldable pub get_s3 : Action (Unit {0})
  get_s3 =
      if is_unset v.endpoint || (is_unset v.access_key || is_unset v.secret_key)
      then throw storage_not_configured
      else pure tt

  abbrev pub put_object : Text → List ℕ → Action (Unit {0})
  put_object key bytes w = elim (v.put_answer w.tick) [
    | ok _ ↦ (ok tt, record w { tick = w.tick + 1; objects = (key, bytes) ∷ w.objects })
    | err e ↦ (err e, record w { tick = w.tick + 1 })
    | crashed ↦ (crashed, record w { tick = w.tick + 1 })
  ]

  abbrev pub object_key_of : Text → Text
  object_key_of uuid = codes "documents/" ++ uuid

  unfoldable pub put_sealed : List ℕ → List ℕ → List ℕ → Text → Action StoredDocument
  put_sealed buf key iv uuid = do
    get_s3
    put_object (object_key_of uuid) (v.seal key iv buf).0
    pure (record {
      object_key = object_key_of uuid;
      sha256 = to_hex (v.sha256 buf);
      iv = to_hex iv;
      auth_tag = to_hex (v.seal key iv buf).1;
    })

  unfoldable pub encrypt_and_put : Env → List ℕ → List ℕ → Action StoredDocument
  encrypt_and_put env buf key = do
    iv ← call (λ t. ok (env.random_bytes t iv_bytes))
    uuid ← call (λ t. ok (env.fresh_id t))
    put_sealed buf key iv uuid

  unfoldable pub store_document : Env → List ℕ → Action StoredDocument
  store_document env buf = (λ w. (load_key, w)) >>= encrypt_and_put env buf

  unfoldable pub decrypt_document : List ℕ → Text → Text → Result (List ℕ)
  decrypt_document ciphertext iv_hex auth_tag_hex = elim load_key [
    | ok key ↦ v.unseal key (from_hex iv_hex) (from_hex auth_tag_hex) ciphertext
    | err e ↦ err e
    | crashed ↦ crashed
  ]
