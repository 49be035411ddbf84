-- ===== src/Printing.antt =====
-- How the templates of the source print: decimal numbers, and texts with a number of digits.
use eps_dapp.Base.{ℕ, zero, suc, ◌+◌, ◌/◌, ◌%◌, [], ◌∷◌, ◌++◌, ltb, if◌then◌else◌, Text}

abbrev pub digit : ℕ → ℕ
digit n = b'0' + n % 10

-- The last `width` decimal digits.
unfoldable pub pad : ℕ → ℕ → Text
pad zero n = []
pad (suc width) n = pad width (n / 10) ++ digit n ∷ []

unfoldable pub print_from : ℕ → ℕ → Text
print_from zero n = digit n ∷ []
print_from (suc fuel) n =
    let before = print_from fuel (n / 10) in (if ltb n 10 then [] else before) ++ digit n ∷ []

-- `${n}`: a number has fewer than `n + 1` digits.
unfoldable pub print_nat : ℕ → Text
unfolding print_from
print_nat n = print_from n n
