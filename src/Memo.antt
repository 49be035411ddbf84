-- ===== src/Memo.antt =====
-- The on-chain memo of a delivery: `buildServiceMemo` (lib/chain/tx-builder.ts).
use eps_dapp.Base.{◌≡◌, ◌≢◌, refl, [], ◌∷◌, ◌++◌, arith, All, Text}

pub record ServiceMemoFields : Type 0 where
  pub sha256 : Text
  pub notice_token : Text
  pub service_id : Text

-- `${sha256}|${noticeToken}|${serviceId}`.
unfoldable pub build_service_memo : ServiceMemoFields → Text
build_service_memo m = m.sha256 ++ b'|' ∷ (m.notice_token ++ b'|' ∷ m.service_id)

abbrev pub NoBar : Text → Type 0
NoBar = All (λ c. c ≢ b'|')

-- Two texts that are equal up to their first bars and on are equal part by part.
split_at_bar :
    (s t u v : Text) → NoBar s → NoBar t → s ++ b'|' ∷ u ≡ t ++ b'|' ∷ v → (s ≡ t) × (u ≡ v)
split_at_bar [] [] u v hs ht e = (refl, cc)
split_at_bar [] (d ∷ t) u v hs ht e = ground arith
split_at_bar (c ∷ s) [] u v hs ht e = ground arith
split_at_bar (c ∷ s) (d ∷ t) u v hs ht e = ground (arith, split_at_bar s t u v hs.1 ht.1)

-- The memo determines the document's digest, the notice token and the service id, as long as the
-- digest and the token hold no bar, which hex digits do not.
pub build_service_memo-injective :
    (m n : ServiceMemoFields)
    → NoBar m.sha256
    → NoBar n.sha256
    → NoBar m.notice_token
    → NoBar n.notice_token
    → build_service_memo m ≡ build_service_memo n
    → m ≡ n
unfolding build_service_memo
build_service_memo-injective m n hm hn km kn e =
    let (same_hash, rest) = split_at_bar m.sha256 n.sha256 _ _ hm hn e in
    let (same_token, same_id) = split_at_bar m.notice_token n.notice_token _ _ km kn rest in
    λ i. record { sha256 = same_hash i; notice_token = same_token i; service_id = same_id i }
