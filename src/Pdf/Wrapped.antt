-- ===== src/Pdf/Wrapped.antt =====
-- lib/certificate-pdf.ts: what `wrap` makes of the words of a text.
use mathlib.Core.List.{Memᴰ, append_assoc}
use eps_dapp.Base.{
  ℕ, ◌+◌, ◌*◌, ◌≤◌, ◌<◌, ◌≡◌, ◌⊎◌, inl, inr, refl, ap, sym, subst, ◌∙◌, Bool, true, false, List, [],
  ◌∷◌, ◌++◌, arith, All, Text, is_empty, ltb, join_with, length, length-append, Bool-cases,
}
use eps_dapp.Pdf.Wrap.{Widths, split_runs, wrap, wrap_from}

-- Two words that are joined first, and then with the others.
join-joined :
    (c : ℕ) (v w : Text) (ws : List Text)
    → join_with c ((v ++ c ∷ w) ∷ ws) ≡ join_with c (v ∷ w ∷ ws)
unfolding join_with
join-joined c v w [] = refl
join-joined c v w (x ∷ ws) = append_assoc v (c ∷ w) (c ∷ join_with c (x ∷ ws))

join_length :
    (v w : Text) (ws : List Text)
    → length (join_with b' ' (v ∷ w ∷ ws)) ≡ length v + 1 + length (join_with b' ' (w ∷ ws))
unfolding join_with
join_length v w ws = omega (arith, length-append v (b' ' ∷ join_with b' ' (w ∷ ws)))

joined_nonempty : (v w : Text) → is_empty (v ++ b' ' ∷ w) ≡ false
joined_nonempty [] w = refl
joined_nonempty (c ∷ v) w = refl

module _ (too_wide : Text → Bool) where
  -- A step of the loop on a line that is not empty: the line ends, or takes the word.
  wrap_step :
      (current word : Text) (words : List Text)
      → is_empty current ≡ false
      → ((too_wide (current ++ b' ' ∷ word) ≡ true)
          × (wrap_from too_wide current (word ∷ words) ≡ current ∷ wrap_from too_wide word words))
        ⊎ ((too_wide (current ++ b' ' ∷ word) ≡ false)
            × (wrap_from too_wide current (word ∷ words)
                ≡ wrap_from too_wide (current ++ b' ' ∷ word) words))
  unfolding wrap_from
  wrap_step current word words h = elim (Bool-cases (too_wide (current ++ b' ' ∷ word))) [
    | inl e ↦ inl (e, ground (arith, e, h))
    | inr e ↦ inr (e, ground (arith, e, h))
  ]

  some_line :
      (current : Text) (words : List Text)
      → is_empty current ≡ false
      → All (λ w. is_empty w ≡ false) words
      → (l : Text) × (ls : List Text) × (wrap_from too_wide current words ≡ l ∷ ls)
  some_line current [] h k = (current, [], unfold wrap_from in ground arith)
  some_line current (word ∷ words) h k = elim (wrap_step current word words h) [
    | inl (_, e) ↦ (current, wrap_from too_wide word words, e)
    | inr (_, e) ↦
        let (l, ls, f) =
          some_line (current ++ b' ' ∷ word) words (joined_nonempty current word) k.1 in
        (l, ls, e ∙ f)
  ]

  -- The lines that are made of a line so far and the words that are left.
  wrap_from-joins :
      (current : Text) (words : List Text)
      → is_empty current ≡ false
      → All (λ w. is_empty w ≡ false) words
      → join_with b' ' (wrap_from too_wide current words) ≡ join_with b' ' (current ∷ words)
  unfolding join_with
  wrap_from-joins current [] h k = unfold wrap_from in ground arith
  wrap_from-joins current (word ∷ words) h k = elim (wrap_step current word words h) [
    | inl (_, e) ↦
        let (l, ls, f) = some_line word words k.0 k.1 in
        ap (join_with b' ') (e ∙ ap (λ lines. current ∷ lines) f)
        ∙ ap (λ s. current ++ b' ' ∷ s)
            (ap (join_with b' ') (sym f) ∙ wrap_from-joins word words k.0 k.1)
    | inr (_, e) ↦
        ap (join_with b' ') e
        ∙ wrap_from-joins (current ++ b' ' ∷ word) words (joined_nonempty current word) k.1
        ∙ join-joined b' ' current word words
  ]

  -- A line that fits, or a word.
  abbrev pub Fits : List Text → Text → Type 0
  Fits words line = (too_wide line ≡ false) ⊎ Memᴰ line words

  Fits-more :
      (w : Text) (words lines : List Text) → All (Fits words) lines → All (Fits (w ∷ words)) lines
  Fits-more w words [] k = tt
  Fits-more w words (l ∷ lines) (inl e, k) = (inl e, Fits-more w words lines k)
  Fits-more w words (l ∷ lines) (inr m, k) = (inr (Memᴰ.tail m), Fits-more w words lines k)

  wrap_from-Fits :
      (current : Text) (words all_words : List Text)
      → is_empty current ≡ false
      → Fits all_words current
      → ((w : Text) → Memᴰ w words → Memᴰ w all_words)
      → All (λ w. is_empty w ≡ false) words
      → All (Fits all_words) (wrap_from too_wide current words)
  wrap_from-Fits current [] all_words h fit there k = unfold wrap_from in ground (arith, fit)
  wrap_from-Fits current (word ∷ words) all_words h fit there k =
      elim (wrap_step current word words h) [
        | inl (_, e) ↦ subst (All (Fits all_words)) (sym e) (
          fit,
          wrap_from-Fits word words all_words k.0 (inr (there word (Memᴰ.head refl)))
              (λ w m. there w (Memᴰ.tail m)) k.1,
        )
        | inr (narrow, e) ↦ subst (All (Fits all_words)) (sym e) (
            wrap_from-Fits (current ++ b' ' ∷ word) words all_words (joined_nonempty current word)
              (inl narrow) (λ w m. there w (Memᴰ.tail m)) k.1)
      ]

  pub start_step :
      (word : Text) (words : List Text)
      → wrap_from too_wide [] (word ∷ words) ≡ wrap_from too_wide word words
  unfolding wrap_from
  start_step word words = elim (Bool-cases (too_wide word)) [
    | inl e ↦ ground (arith, e)
    | inr e ↦ ground (arith, e)
  ]

  start_lem :
      (words : List Text)
      → All (λ w. is_empty w ≡ false) words
      → (join_with b' ' (wrap_from too_wide [] words) ≡ join_with b' ' words)
        × All (Fits words) (wrap_from too_wide [] words)
  unfolding wrap_from join_with
  start_lem [] k = (refl, tt)
  start_lem (word ∷ words) k = rw (start_step word words) (started word words k)
    where
      started :
          (word : Text) (words : List Text)
          → All (λ w. is_empty w ≡ false) (word ∷ words)
          → (join_with b' ' (wrap_from too_wide word words) ≡ join_with b' ' (word ∷ words))
            × All (Fits (word ∷ words)) (wrap_from too_wide word words)
      started word words k = (
        wrap_from-joins word words k.0 k.1,
        wrap_from-Fits word words (word ∷ words) k.0 (inr (Memᴰ.head refl)) (λ w m. Memᴰ.tail m)
            k.1,
      )

  -- The number of lines, where what is too wide has more than 48 units and a word at most 12.
  pub wrap_from-few :
      (current : Text) (words : List Text)
      → ((line : Text) → too_wide line ≡ true → 48 < length line)
      → is_empty current ≡ false
      → All (λ w. (is_empty w ≡ false) × (length w ≤ 12)) words
      → 37 * length (wrap_from too_wide current words)
        ≤ length (join_with b' ' (current ∷ words)) + 37
  wrap_from-few current [] wide h k = unfold wrap_from join_with in ground (arith, h)
  wrap_from-few current (word ∷ words) wide h (k, l) = elim (wrap_step current word words h) [
    | inl (e, f) ↦ omega (
      arith,
      ap length f,
      wide (current ++ b' ' ∷ word) e,
      length-append current (b' ' ∷ word),
      k.1,
      join_length current word words,
      wrap_from-few word words wide k.0 l,
    )
    | inr (e, f) ↦ omega (
      arith,
      ap length f,
      ap length (join-joined b' ' current word words),
      wrap_from-few (current ++ b' ' ∷ word) words wide (joined_nonempty current word) l,
    )
  ]

-- Wrapping loses no word: the lines, joined by spaces, are the words, joined by spaces; and each
-- line fits, or is a single word. No word is empty: the text has no space at its ends.
pub wrap_lem :
    (widths : Widths) (text : Text) (size max_width : ℕ)
    → All (λ w. is_empty w ≡ false) (split_runs false text)
    → (join_with b' ' (wrap widths text size max_width) ≡ join_with b' ' (split_runs false text))
      × All
          (λ line.
            (ltb max_width (widths false line size) ≡ false) ⊎ Memᴰ line (split_runs false text))
          (wrap widths text size max_width)
unfolding wrap
wrap_lem widths text size max_width =
    start_lem (λ line. ltb max_width (widths false line size)) (split_runs false text)
