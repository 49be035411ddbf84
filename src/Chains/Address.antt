-- ===== src/Chains/Address.antt =====
-- The address tests of the EVM and Bitcoin adapters: `/^0x[0-9a-fA-F]{40}$/`, which the routes and
-- the ENS resolver use too, and the three of `BitcoinAdapter.validateAddress`.
use eps_dapp.Base.{
  ℕ, Bool, false, not, ◌&&◌, ◌||◌, [], ◌∷◌, leb, ◌==◌, length, all, Text, codes, starts_with,
  to_lower,
}
use eps_dapp.Hex.{is_hex}

unfoldable pub is_evm_address : Text → Bool
is_evm_address (z ∷ x ∷ digits) =
    (z == b'0') && ((x == b'x') && ((length digits == 40) && is_hex digits))
is_evm_address (z ∷ []) = false
is_evm_address [] = false

abbrev pub is_digit : ℕ → Bool
is_digit c = leb b'0' c && leb c b'9'

abbrev pub is_lower_letter : ℕ → Bool
is_lower_letter c = leb b'a' c && leb c b'z'

abbrev pub is_upper_letter : ℕ → Bool
is_upper_letter c = leb b'A' c && leb c b'Z'

-- `[a-km-zA-HJ-NP-Z1-9]`: no 0, O, I and l.
abbrev pub is_base58 : ℕ → Bool
is_base58 c =
    (is_lower_letter c && not (c == b'l'))
    || (is_upper_letter c && (not (c == b'I') && not (c == b'O')))
    || (is_digit c && not (c == b'0'))

abbrev pub has_length : ℕ → ℕ → Text → Bool
has_length low high text = leb low (length text) && leb (length text) high

-- `/^(bc1|tb1|sb1)[a-z0-9]{6,87}$/i`.
unfoldable pub is_bech32 : Text → Bool
unfolding to_lower starts_with
is_bech32 (a ∷ b ∷ c ∷ rest) =
    (starts_with (codes "bc1") (to_lower (a ∷ b ∷ c ∷ []))
      || (starts_with (codes "tb1") (to_lower (a ∷ b ∷ c ∷ []))
          || starts_with (codes "sb1") (to_lower (a ∷ b ∷ c ∷ []))))
    && (has_length 6 87 rest
        && all (λ d. is_lower_letter d || (is_upper_letter d || is_digit d)) rest)
is_bech32 (a ∷ b ∷ []) = false
is_bech32 (a ∷ []) = false
is_bech32 [] = false

-- `/^[13][…]{25,34}$/` and `/^[mn2][…]{25,34}$/`.
unfoldable pub is_legacy : Text → Bool
is_legacy [] = false
is_legacy (c ∷ rest) = (c == b'1' || c == b'3') && (has_length 25 34 rest && all is_base58 rest)

unfoldable pub is_testnet : Text → Bool
is_testnet [] = false
is_testnet (c ∷ rest) =
    (c == b'm' || (c == b'n' || c == b'2')) && (has_length 25 34 rest && all is_base58 rest)

unfoldable pub is_bitcoin_address : Text → Bool
unfolding is_bech32 is_legacy is_testnet
is_bitcoin_address address = is_bech32 address || (is_legacy address || is_testnet address)
