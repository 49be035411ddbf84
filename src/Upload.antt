-- ===== src/Upload.antt =====
-- app/api/upload/route.ts: `POST`. The parser of the form and the library that recognizes a file's
-- type are parameters. A declared type that is a name of `Object.prototype` is out of the model.
pub mod Accepted
use eps_dapp.Base.{
  ℕ, ◌*◌, Bool, false, Option, none, some, List, [], ◌∷◌, any, ltb, length, if◌then◌else◌, Text,
  codes, text_eq,
}
use eps_dapp.Effects.{Action, Env, Result, ◌>>=◌, pure, call}
use eps_dapp.Storage.{Vault, StoredDocument, store_document}

pub record UploadedFile : Type 0 where
  pub declared_mime : Text
  pub bytes : List ℕ

-- `await req.formData()` and its part `file`.
pub data Form : Type 0 where
  not_multipart without_file : Form
  with_file : UploadedFile → Form

-- The type and the extension that the bytes are recognized by.
pub record Sniffed : Type 0 where
  pub mime : Text
  pub ext : Text

pub data UploadResponse : Type 0 where
  expected_form missing_file too_large unsupported_type mismatched_type : UploadResponse
  uploaded : Text → Text → ℕ → StoredDocument → UploadResponse

abbrev pub max_upload_bytes : ℕ
max_upload_bytes = 25 * 1024 * 1024

-- `ALLOWED_MIME[declaredMime]`.
unfoldable pub allowed_signatures : Text → Option (List Text)
unfolding text_eq
allowed_signatures mime =
    if text_eq mime (codes "application/pdf")
    then some (codes "application/pdf" ∷ [])
    else if text_eq mime (codes "application/msword")
    then some (codes "application/x-cfb" ∷ [])
    else if text_eq mime
        (codes "application/vnd.openxmlformats-officedocument.wordprocessingml.document")
    then some (
        codes "application/vnd.openxmlformats-officedocument.wordprocessingml.document"
        ∷ codes "application/zip"
        ∷ [])
    else none

-- `allowedSignatures.includes(sniffed.mime)`, false for nothing recognized.
abbrev pub matches_signature : List Text → Option Sniffed → Bool
matches_signature allowed none = false
matches_signature allowed (some found) = any (λ mime. text_eq mime found.mime) allowed

module _ (env : Env) (v : Vault) (sniff : ℕ → List ℕ → Result (Option Sniffed)) where
  unfoldable pub store_upload : UploadedFile → Sniffed → Action UploadResponse
  store_upload file found = store_document v env file.bytes >>= λ stored.
      pure (uploaded file.declared_mime found.ext (length file.bytes) stored)

  unfoldable pub store_matching : UploadedFile → List Text → Option Sniffed → Action UploadResponse
  unfolding text_eq
  store_matching file allowed none = pure mismatched_type
  store_matching file allowed (some found) =
      if matches_signature allowed (some found)
      then store_upload file found
      else pure mismatched_type

  unfoldable pub sniff_and_store : UploadedFile → Option (List Text) → Action UploadResponse
  sniff_and_store file none = pure unsupported_type
  sniff_and_store file (some allowed) =
      call (λ t. sniff t file.bytes) >>= store_matching file allowed

  unfoldable pub post_upload : Form → Action UploadResponse
  post_upload not_multipart = pure expected_form
  post_upload without_file = pure missing_file
  post_upload (with_file file) =
      if ltb max_upload_bytes (length file.bytes)
      then pure too_large
      else sniff_and_store file (allowed_signatures file.declared_mime)
