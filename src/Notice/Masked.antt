-- ===== src/Notice/Masked.antt =====
-- lib/noticeAccess.ts: what `maskIp` hides.
use eps_dapp.Base.{
  ℕ, ◌≡◌, refl, true, List, [], ◌∷◌, ◌++◌, arith, Text, codes, split_at, join_with, ◌==◌,
  Bool-cases, inl, inr, all,
}
use eps_dapp.Chains.Address.{is_digit}
use eps_dapp.Notice.Mask.{mask_ip, is_number}

split_at-cons : (c : ℕ) (s : Text) → (w : Text) × (ws : List Text) × (split_at c s ≡ w ∷ ws)
unfolding split_at
split_at-cons c [] = ([], [], refl)
split_at-cons c (d ∷ s) =
    let (w, ws, e) = split_at-cons c s in
    elim (Bool-cases (d == c)) [
      | inl k ↦ ([], w ∷ ws, ground (arith, e, k))
      | inr k ↦ (d ∷ w, ws, ground (arith, e, k))
    ]

-- A number before a dot is the first part.
split_at-append :
    (word rest : Text)
    → all is_digit word ≡ true
    → split_at b'.' (word ++ b'.' ∷ rest) ≡ word ∷ split_at b'.' rest
unfolding split_at
split_at-append [] rest h = let (w, ws, e) = split_at-cons b'.' rest in ground (arith, e)
split_at-append (d ∷ word) rest h = ground (arith, split_at-append word rest)

split_at_word : (word : Text) → all is_digit word ≡ true → split_at b'.' word ≡ word ∷ []
unfolding split_at
split_at_word [] h = refl
split_at_word (d ∷ word) h = ground (arith, split_at_word word)

-- The last number of an address of four is masked, whatever it is, and the others are kept.
pub mask_ip_lem :
    (a b c d : Text)
    → is_number a ≡ true
    → is_number b ≡ true
    → is_number c ≡ true
    → is_number d ≡ true
    → mask_ip (a ++ b'.' ∷ (b ++ b'.' ∷ (c ++ b'.' ∷ d)))
      ≡ a ++ b'.' ∷ (b ++ b'.' ∷ (c ++ b'.' ∷ codes "x"))
unfolding mask_ip join_with
mask_ip_lem a b c d ha hb hc hd =
    rw
      (
        split_at-append a (b ++ b'.' ∷ (c ++ b'.' ∷ d)) (ground arith),
        split_at-append b (c ++ b'.' ∷ d) (ground arith),
        split_at-append c d (ground arith),
        split_at_word d (ground arith),
      )
      (ground (arith, ha, hb, hc, hd))
