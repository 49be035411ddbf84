-- ===== src/Picture/Escaped.antt =====
-- app/api/nft/image/route.ts: what the query says adds no markup to the picture.
use eps_dapp.Base.{
  ℕ, ◌+◌, ◌≡◌, refl, sym, ◌∙◌, Bool, ◌==◌, Option, none, or_else, [], ◌∷◌, ◌++◌, arith, Text, codes,
  count, Bool-cases, inl, inr,
}
use eps_dapp.Picture.{replace_all, esc, svg_before, svg_between, svg_after, nft_svg}

count-append : (p : ℕ → Bool) (xs ys : Text) → count p (xs ++ ys) ≡ count p xs + count p ys
count-append p [] ys = ground arith
count-append p (x ∷ xs) ys = ground (arith, count-append p xs ys)

-- A character that is replaced by text without it is gone, and one that the text has not stays away.
replaced_gone :
    (c : ℕ) (by s : Text)
    → count (λ d. d == c) by ≡ 0
    → count (λ d. d == c) (replace_all c by s) ≡ 0
unfolding replace_all
replaced_gone c by [] e = refl
replaced_gone c by (d ∷ s) e = elim (Bool-cases (d == c)) [
  | inl k ↦
      simp k (
        omega
          (arith, e, count-append (λ d. d == c) by (replace_all c by s), replaced_gone c by s e))
  | inr k ↦ ground (arith, k, replaced_gone c by s e)
]

still_gone :
    (c other : ℕ) (by s : Text)
    → count (λ d. d == other) by ≡ 0
    → count (λ d. d == other) s ≡ 0
    → count (λ d. d == other) (replace_all c by s) ≡ 0
unfolding replace_all
still_gone c other by [] e f = refl
still_gone c other by (d ∷ s) e f = elim (Bool-cases (d == c)) [
  | inl k ↦ simp k (
      omega (
        arith,
        e,
        count-append (λ d. d == other) by (replace_all c by s),
        still_gone c other by s e (ground (arith, f)),
      ))
  | inr k ↦ ground (arith, k, f, still_gone c other by s e)
]

-- The characters of markup.
abbrev pub is_markup : ℕ → ℕ → Bool
is_markup mark d = d == mark

esc_gone :
    (s : Text)
    → (count (is_markup b'<') (esc s) ≡ 0)
      × (count (is_markup b'>') (esc s) ≡ 0)
      × (count (is_markup b'"') (esc s) ≡ 0)
unfolding esc
esc_gone s =
    let amp = replace_all b'&' (codes "&amp;") s in
    let lt = replace_all b'<' (codes "&lt;") amp in
    let gt = replace_all b'>' (codes "&gt;") lt in
    (
      still_gone b'"' b'<' (codes "&quot;") gt refl (
          still_gone b'>' b'<' (codes "&gt;") lt refl (replaced_gone b'<' (codes "&lt;") amp refl)),
      still_gone b'"' b'>' (codes "&quot;") gt refl (replaced_gone b'>' (codes "&gt;") lt refl),
      replaced_gone b'"' (codes "&quot;") gt refl,
    )

count-framed :
    (p : ℕ → Bool) (a t b u c : Text)
    → count p t ≡ 0
    → count p u ≡ 0
    → count p (a ++ t ++ b ++ u ++ c) ≡ count p a + count p b + count p c
count-framed p a t b u c e f =
    sum_up (count-append p (((a ++ t) ++ b) ++ u) c) (count-append p ((a ++ t) ++ b) u)
      (count-append p (a ++ t) b) (count-append p a t)
  where
    sum_up :
        {v w x y : ℕ}
        → v ≡ w + count p c
        → w ≡ x + count p u
        → x ≡ y + count p b
        → y ≡ count p a + count p t
        → v ≡ count p a + count p b + count p c
    sum_up g h i j = omega arith

svg_count :
    (p : ℕ → Bool) (topic seq : Option Text)
    → count p (esc (or_else topic (codes "0.0.9225885"))) ≡ 0
    → count p (esc (or_else seq (codes "0"))) ≡ 0
    → count p (nft_svg topic seq) ≡ count p svg_before + count p svg_between + count p svg_after
unfolding nft_svg
svg_count p topic seq =
    count-framed p svg_before (esc (or_else topic (codes "0.0.9225885"))) svg_between
      (esc (or_else seq (codes "0"))) svg_after

-- Whatever the query says, the picture has the same number of each of the characters that begin and
-- end a tag and that quote an attribute: as many as without a query.
pub svg_safe :
    (topic seq : Option Text)
    → (count (is_markup b'<') (nft_svg topic seq) ≡ count (is_markup b'<') (nft_svg none none))
      × (count (is_markup b'>') (nft_svg topic seq) ≡ count (is_markup b'>') (nft_svg none none))
      × (count (is_markup b'"') (nft_svg topic seq) ≡ count (is_markup b'"') (nft_svg none none))
svg_safe topic seq =
    let (t0, t1, t2) = esc_gone (or_else topic (codes "0.0.9225885")) in
    let (s0, s1, s2) = esc_gone (or_else seq (codes "0")) in
    let (d0, d1, d2) = esc_gone (codes "0.0.9225885") in
    let (z0, z1, z2) = esc_gone (codes "0") in
    (
      svg_count (is_markup b'<') topic seq t0 s0 ∙ sym (svg_count (is_markup b'<') none none d0 z0),
      svg_count (is_markup b'>') topic seq t1 s1 ∙ sym (svg_count (is_markup b'>') none none d1 z1),
      svg_count (is_markup b'"') topic seq t2 s2 ∙ sym (svg_count (is_markup b'"') none none d2 z2),
    )
