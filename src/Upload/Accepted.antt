-- ===== src/Upload/Accepted.antt =====
-- app/api/upload/route.ts: what an upload that is accepted went through.
use eps_dapp.Base.{
  ℕ, ◌+◌, ◌*◌, ◌≤◌, ◌≡◌, refl, true, Option, none, some, List, length, arith, Text, Bool-cases, inl,
  inr, ltb,
}
use eps_dapp.Effects.{Env, World, Result, ok, >>=-inv, call}
use eps_dapp.Hex.{AreBytes}
use eps_dapp.Storage.{
  Vault, OpensSealed, StoredDocument, store_document, Stored, store_document-Stored,
}
use eps_dapp.Upload.{
  UploadedFile, with_file, Sniffed, uploaded, max_upload_bytes, allowed_signatures,
  matches_signature, store_upload, store_matching, sniff_and_store, post_upload,
}

-- The bytes were recognized as a type that the declared one allows, they are not too many, and they
-- are stored.
pub record IsAccepted (v : Vault) (sniff : ℕ → List ℕ → Result (Option Sniffed))
    (file : UploadedFile) (w w' : World) (mime ext : Text) (size : ℕ) (stored : StoredDocument)
    : Type 0 where
  pub allowed : List Text
  pub found : Sniffed
  pub on_list : allowed_signatures file.declared_mime ≡ some allowed
  pub sniffed : sniff w.tick file.bytes ≡ ok (some found)
  pub matches : matches_signature allowed (some found) ≡ true
  pub same_mime : mime ≡ file.declared_mime
  pub same_ext : ext ≡ found.ext
  pub same_size : size ≡ length file.bytes
  pub not_too_large : size ≤ 25 * 1024 * 1024
  pub kept : Stored v file.bytes w stored w'

module _ (env : Env) (v : Vault) (sniff : ℕ → List ℕ → Result (Option Sniffed))
    (law : OpensSealed v) (bytes : (t n : ℕ) → AreBytes (env.random_bytes t n)) where
  module _ (file : UploadedFile) (mime ext : Text) (size : ℕ) (stored : StoredDocument) where
    store_upload_lem :
        (found : Sniffed) (w : World)
        → (store_upload env v sniff file found w).0 ≡ ok (uploaded mime ext size stored)
        → (mime ≡ file.declared_mime)
          × (ext ≡ found.ext)
          × (size ≡ length file.bytes)
          × Stored v file.bytes w stored (store_upload env v sniff file found w).1
    unfolding store_upload
    store_upload_lem found w =
        >>=-inv
          (λ r.
            r.0 ≡ ok (uploaded mime ext size stored)
            → (mime ≡ file.declared_mime)
              × (ext ≡ found.ext)
              × (size ≡ length file.bytes)
              × Stored v file.bytes w stored r.1)
          (store_document v env file.bytes) w
          (λ s w'. (ok (uploaded file.declared_mime found.ext (length file.bytes) s), w'))
          (λ s k e.
            let stored_doc =
              store_document-Stored v env file.bytes w stored law bytes (ground (arith, k)) in
            (ground arith, ground arith, ground arith, stored_doc))
          (λ r f k e. absurd (ground (arith, f)))

    store_matching_lem :
        (allowed : List Text) (found : Option Sniffed) (w : World)
        → (store_matching env v sniff file allowed found w).0 ≡ ok (uploaded mime ext size stored)
        → (f : Sniffed) × (found ≡ some f)
          × (matches_signature allowed (some f) ≡ true)
          × ((mime ≡ file.declared_mime)
              × (ext ≡ f.ext)
              × (size ≡ length file.bytes)
              × Stored v file.bytes w stored (store_matching env v sniff file allowed found w).1)
    unfolding store_matching
    store_matching_lem allowed none w e = absurd (ground arith)
    store_matching_lem allowed (some f) w e =
        elim (Bool-cases (matches_signature allowed (some f))) [
          | inl k ↦ (f, refl, k, simp k (store_upload_lem f w (ground (arith, k))))
          | inr k ↦ absurd (ground (arith, k))
        ]

    sniff_and_store_lem :
        (list : Option (List Text)) (w : World)
        → allowed_signatures file.declared_mime ≡ list
        → length file.bytes ≤ max_upload_bytes
        → (sniff_and_store env v sniff file list w).0 ≡ ok (uploaded mime ext size stored)
        → IsAccepted v sniff file w (sniff_and_store env v sniff file list w).1 mime ext size stored
    unfolding sniff_and_store
    sniff_and_store_lem none w list small = λ e. absurd (ground arith)
    sniff_and_store_lem (some allowed) w list small =
        >>=-inv
          (λ r.
            r.0 ≡ ok (uploaded mime ext size stored)
            → IsAccepted v sniff file w r.1 mime ext size stored)
          (call (λ t. sniff t file.bytes)) w (store_matching env v sniff file allowed)
          (λ found k e.
            let (f, is, matches, rest) =
              store_matching_lem allowed found (record w { tick = w.tick + 1 }) e in
            record {
              allowed = allowed;
              found = f;
              on_list = list;
              sniffed = ground (arith, k, is);
              matches = matches;
              same_mime = rest.0;
              same_ext = rest.1;
              same_size = rest.2;
              not_too_large = ground (arith, rest.2, small);
              kept = rest.3;
            })
          (λ r f k e. absurd (ground (arith, f)))

    -- A file that is accepted has at most 25 MiB, was recognized by its bytes as a type that the
    -- declared one allows, and is stored: one more object decrypts to its bytes. The cipher opens
    -- what it sealed, and the random bytes are bytes.
    pub post_upload-IsAccepted :
        (w : World)
        → (post_upload env v sniff (with_file file) w).0 ≡ ok (uploaded mime ext size stored)
        → IsAccepted v sniff file w
            (post_upload env v sniff (with_file file) w).1
            mime
            ext
            size
            stored
    unfolding post_upload
    post_upload-IsAccepted w e = elim (Bool-cases (ltb max_upload_bytes (length file.bytes))) [
      | inl k ↦ absurd (ground (arith, k))
      | inr k ↦ simp k (
          sniff_and_store_lem (allowed_signatures file.declared_mime) w refl (ground arith)
            (ground (arith, k)))
    ]
