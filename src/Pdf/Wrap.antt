-- ===== src/Pdf/Wrap.antt =====
-- lib/certificate-pdf.ts: `wrap`, which breaks a text into lines at its spaces. Lengths are in
-- hundredths of a point.
use eps_dapp.Base.{
  ℕ, Bool, true, false, not, ◌&&◌, List, [], ◌∷◌, ◌++◌, ltb, is_empty, is_space, if◌then◌else◌,
  Text,
}

-- What pdf-lib knows of a font, regular or bold: `widthOfTextAtSize`, rounded up.
abbrev pub Widths : Type 0
Widths = Bool → Text → ℕ → ℕ

abbrev pub in_first : ℕ → List Text → List Text
in_first c [] = (c ∷ []) ∷ []
in_first c (w ∷ ws) = (c ∷ w) ∷ ws

-- `text.split(/\s+/)`; the flag says that the unit before was a space.
unfoldable pub split_runs : Bool → Text → List Text
split_runs spaced [] = [] ∷ []
split_runs spaced (c ∷ s) = elim (is_space c) [
  | true ↦ elim spaced [ true ↦ split_runs true s | false ↦ [] ∷ split_runs true s ]
  | false ↦ in_first c (split_runs false s)
]

module _ (too_wide : Text → Bool) where
  abbrev pub candidate : Text → Text → Text
  candidate current word = if is_empty current then word else current ++ b' ' ∷ word

  -- The loop of `wrap`, with the line so far.
  unfoldable pub wrap_from : Text → List Text → List Text
  wrap_from current [] = if is_empty current then [] else current ∷ []
  wrap_from current (word ∷ words) =
      elim (too_wide (candidate current word) && not (is_empty current)) [
        | true ↦ current ∷ wrap_from word words
        | false ↦ wrap_from (candidate current word) words
      ]

-- `wrap(text, font, size, maxWidth)`, in the regular font.
unfoldable pub wrap : Widths → Text → ℕ → ℕ → List Text
unfolding split_runs wrap_from
wrap widths text size max_width =
    wrap_from (λ line. ltb max_width (widths false line size)) [] (split_runs false text)
