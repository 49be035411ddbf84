-- ===== src/Json.antt =====
-- What `JSON.stringify` makes of a text: the quotation marks, the short escapes, `\u00XX` for the
-- other control characters, and `\uXXXX` for a surrogate that is not in a pair.
use eps_dapp.Base.{
  ℕ, ◌/◌, ◌%◌, Bool, false, not, ◌&&◌, ◌||◌, [], ◌∷◌, ◌++◌, ◌==◌, leb, ltb, if◌then◌else◌, Text,
  codes, List, join_with,
}
use Prim.Native.String.{String}
use eps_dapp.Hex.{to_hex}

abbrev pub is_high : ℕ → Bool
is_high c = leb 0xd800 c && leb c 0xdbff

abbrev pub is_low : ℕ → Bool
is_low c = leb 0xdc00 c && leb c 0xdfff

abbrev pub starts_low : Text → Bool
starts_low [] = false
starts_low (c ∷ s) = is_low c

abbrev pub unicode_escape : ℕ → Text
unicode_escape c = codes "\\u" ++ to_hex (c / 256 ∷ c % 256 ∷ [])

-- A unit that is not in a pair of surrogates.
unfoldable pub escape_unit : ℕ → Text
escape_unit c =
    if c == 34 || c == 92
    then 92 ∷ c ∷ []
    else if c == 8
    then codes "\\b"
    else if c == 9
    then codes "\\t"
    else if c == 10
    then codes "\\n"
    else if c == 12
    then codes "\\f"
    else if c == 13
    then codes "\\r"
    else if ltb c 32 || (is_high c || is_low c)
    then unicode_escape c
    else c ∷ []

-- Whether the unit before is a surrogate that opens a pair.
unfoldable pub escape_text : Bool → Text → Text
unfolding escape_unit
escape_text paired [] = []
escape_text paired (c ∷ s) =
    (if (paired && is_low c) || (is_high c && starts_low s) then c ∷ [] else escape_unit c)
    ++ escape_text (is_high c) s

unfoldable pub json_string : Text → Text
unfolding escape_text
json_string s = 34 ∷ escape_text false s ++ 34 ∷ []

-- A member of an object, and the object.
abbrev pub json_field : String → Text → Text
json_field name value = json_string (codes name) ++ b':' ∷ json_string value

abbrev pub json_object : List Text → Text
json_object fields = b'{' ∷ join_with b',' fields ++ b'}' ∷ []

-- Every surrogate is in a pair: the flag says that the unit before opens one.
unfoldable pub well_formed_after : Bool → Text → Bool
well_formed_after opened [] = not opened
well_formed_after opened (c ∷ s) =
    (if is_low c then opened else not opened) && well_formed_after (is_high c) s

unfoldable pub is_well_formed : Text → Bool
unfolding well_formed_after
is_well_formed = well_formed_after false
