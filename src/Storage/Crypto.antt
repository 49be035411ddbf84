-- ===== src/Storage/Crypto.antt =====
-- What the code uses of node:crypto and of the S3 client, and the environment variables that it
-- reads.
use eps_dapp.Base.{ℕ, ◌≡◌, Option, List, Text}
use eps_dapp.Effects.{Result, ok}
use eps_dapp.Hex.{AreBytes}

pub record Vault : Type 0 where
  -- `process.env.STORAGE_ENCRYPTION_KEY` and the three settings of MinIO
  pub encryption_key : Option Text
  pub endpoint : Option Text
  pub access_key : Option Text
  pub secret_key : Option Text
  -- `Buffer.from(text, "base64")`
  pub from_base64 : Text → List ℕ
  pub sha256 : List ℕ → List ℕ
  -- AES-256-GCM: key, nonce and plaintext to ciphertext and tag, and back
  pub seal : List ℕ → List ℕ → List ℕ → List ℕ × List ℕ
  pub unseal : List ℕ → List ℕ → List ℕ → List ℕ → Result (List ℕ)
  -- the answer of a PUT at a tick
  pub put_answer : ℕ → Result (Unit {0})

-- What was sealed is opened with the same key, nonce and tag; a tag is bytes.
pub record OpensSealed (v : Vault) : Type 0 where
  pub opens :
      (key nonce plain : List ℕ)
      → v.unseal key nonce (v.seal key nonce plain).1 (v.seal key nonce plain).0 ≡ ok plain
  pub tag_bytes : (key nonce plain : List ℕ) → AreBytes (v.seal key nonce plain).1
