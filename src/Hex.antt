-- ===== src/Hex.antt =====
-- Hexadecimal text of bytes: Buffer's `toString("hex")` and `Buffer.from(text, "hex")`, which stops
-- at the first pair that is not two hexadecimal digits.
use eps_dapp.Base.{
  ℕ, ◌+◌, ◌-◌, ◌*◌, ◌/◌, ◌%◌, ◌<◌, ◌≡◌, refl, Bool, ◌&&◌, Option, none, some, List, [], ◌∷◌, ltb,
  leb, if◌then◌else◌, arith, All, Text, is_some, all,
}

abbrev pub hex_digit : ℕ → ℕ
hex_digit n = if ltb n 10 then b'0' + n else b'a' + (n - 10)

abbrev pub hex_value : ℕ → Option ℕ
hex_value c =
    if leb b'0' c && leb c b'9'
    then some (c - b'0')
    else if leb b'a' c && leb c b'f'
    then some (c - b'a' + 10)
    else if leb b'A' c && leb c b'F'
    then some (c - b'A' + 10)
    else none

abbrev pub is_hex : Text → Bool
is_hex = all (λ c. is_some (hex_value c))

unfoldable pub to_hex : List ℕ → Text
to_hex [] = []
to_hex (b ∷ bytes) = hex_digit (b / 16) ∷ hex_digit (b % 16) ∷ to_hex bytes

-- A byte, if both digits are there, and the bytes after it.
abbrev pub byte_then : Option ℕ → Option ℕ → List ℕ → List ℕ
byte_then (some high) (some low) rest = (high * 16 + low) ∷ rest
byte_then (some high) none rest = []
byte_then none low rest = []

unfoldable pub from_hex : Text → List ℕ
from_hex [] = []
from_hex (c ∷ []) = []
from_hex (c ∷ d ∷ text) = let rest = from_hex text in byte_then (hex_value c) (hex_value d) rest

abbrev pub AreBytes : List ℕ → Type 0
AreBytes = All (λ b. b < 256)

hex_value-hex_digit : (n : ℕ) → n < 16 → hex_value (hex_digit n) ≡ some n
hex_value-hex_digit n h = ground arith

pub from_hex-to_hex : (bytes : List ℕ) → AreBytes bytes → from_hex (to_hex bytes) ≡ bytes
unfolding from_hex to_hex
from_hex-to_hex [] h = refl
from_hex-to_hex (b ∷ bytes) h =
    rw
      (
        hex_value-hex_digit (b / 16) (omega (arith, h.0)),
        hex_value-hex_digit (b % 16) (omega arith),
      )
      (ground (arith, from_hex-to_hex bytes h.1))
