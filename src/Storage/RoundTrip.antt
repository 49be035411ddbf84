-- ===== src/Storage/RoundTrip.antt =====
-- lib/storage.ts: storing a document and reading it back.
use eps_dapp.Base.{ℕ, ◌≡◌, ap, List, ◌∷◌, arith, Text}
use eps_dapp.Effects.{Env, World, ok, >>=-inv}
use eps_dapp.Hex.{to_hex, from_hex, AreBytes, from_hex-to_hex}
use eps_dapp.Storage.Crypto.{Vault, OpensSealed}
use eps_dapp.Storage.Documents.{
  StoredDocument, load_key, get_s3, put_sealed, encrypt_and_put, store_document, decrypt_document,
  iv_bytes,
}

-- One object was added, whose bytes decrypt to the document with what the answer holds.
abbrev pub Stored : Vault → List ℕ → World → StoredDocument → World → Type 0
Stored v buf w stored w' =
    (ciphertext : List ℕ) × (w'.objects ≡ (stored.object_key, ciphertext) ∷ w.objects)
    × (decrypt_document v ciphertext stored.iv stored.auth_tag ≡ ok buf)
    × (stored.sha256 ≡ to_hex (v.sha256 buf))
    × (w'.db ≡ w.db)

module _ (v : Vault) (buf key : List ℕ) where
  put_sealed_lem :
      (iv : List ℕ) (uuid : Text) (w : World) (stored : StoredDocument)
      → (put_sealed v buf key iv uuid w).0 ≡ ok stored
      → ((put_sealed v buf key iv uuid w).1.objects
          ≡ (stored.object_key, (v.seal key iv buf).0) ∷ w.objects)
        × (stored.sha256 ≡ to_hex (v.sha256 buf))
        × (stored.iv ≡ to_hex iv)
        × (stored.auth_tag ≡ to_hex (v.seal key iv buf).1)
        × ((put_sealed v buf key iv uuid w).1.db ≡ w.db)
  unfolding put_sealed get_s3
  put_sealed_lem iv uuid w stored h = ground arith

  decrypt_lem :
      (iv : List ℕ)
      → OpensSealed v
      → AreBytes iv
      → load_key v ≡ ok key
      → decrypt_document v (v.seal key iv buf).0 (to_hex iv) (to_hex (v.seal key iv buf).1) ≡ ok buf
  unfolding decrypt_document
  decrypt_lem iv law bytes k = ground (
    arith,
    k,
    law.opens key iv buf,
    ap (λ x. v.unseal key x (v.seal key iv buf).1 (v.seal key iv buf).0) (from_hex-to_hex iv bytes),
    ap (λ x. v.unseal key (from_hex (to_hex iv)) x (v.seal key iv buf).0)
        (from_hex-to_hex (v.seal key iv buf).1 (law.tag_bytes key iv buf)),
  )

  put_sealed-Stored :
      (iv : List ℕ) (uuid : Text) (w : World) (stored : StoredDocument)
      → OpensSealed v
      → AreBytes iv
      → load_key v ≡ ok key
      → (put_sealed v buf key iv uuid w).0 ≡ ok stored
      → Stored v buf w stored (put_sealed v buf key iv uuid w).1
  put_sealed-Stored iv uuid w stored law bytes k h =
      let (put, digest, same_iv, same_tag, same) = put_sealed_lem iv uuid w stored h in
      (
        (v.seal key iv buf).0,
        put,
        rw (same_iv, same_tag) (decrypt_lem iv law bytes k),
        digest,
        same,
      )

  encrypt_and_put-Stored :
      (env : Env) (w : World) (stored : StoredDocument)
      → OpensSealed v
      → ((t n : ℕ) → AreBytes (env.random_bytes t n))
      → load_key v ≡ ok key
      → (encrypt_and_put v env buf key w).0 ≡ ok stored
      → Stored v buf w stored (encrypt_and_put v env buf key w).1
  unfolding encrypt_and_put
  encrypt_and_put-Stored env w stored law bytes k h =
      put_sealed-Stored (env.random_bytes w.tick iv_bytes) _ _ stored law (bytes w.tick iv_bytes) k
        h

-- A document that was stored is one more object, which decrypts to the document with the nonce
-- and the tag of the answer; the answer has the document's digest, and no table changes. The
-- cipher opens what it sealed, and the random bytes are bytes.
pub store_document-Stored :
    (v : Vault) (env : Env) (buf : List ℕ) (w : World) (stored : StoredDocument)
    → OpensSealed v
    → ((t n : ℕ) → AreBytes (env.random_bytes t n))
    → (store_document v env buf w).0 ≡ ok stored
    → Stored v buf w stored (store_document v env buf w).1
unfolding store_document
store_document-Stored v env buf w stored law bytes =
    >>=-inv (λ r. r.0 ≡ ok stored → Stored v buf w stored r.1) (λ w. (load_key v, w)) w
      (encrypt_and_put v env buf)
      (λ key k h. encrypt_and_put-Stored v buf key env w stored law bytes k h)
      (λ r h k f. absurd (ground arith))

-- Whatever comes of it, storing a document changes no table.
pub store_document-keeps :
    (v : Vault) (env : Env) (buf : List ℕ) (w : World) → (store_document v env buf w).1.db ≡ w.db
unfolding store_document encrypt_and_put put_sealed get_s3
store_document-keeps v env buf w = ground arith
