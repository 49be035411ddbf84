-- ===== src/Notice/Mask.antt =====
-- lib/noticeAccess.ts: `maskIp`. lib/notice.ts: the test on a notice token.
use eps_dapp.Base.{
  Bool, not, ◌&&◌, ◌||◌, List, [], ◌∷◌, leb, ◌==◌, all, length, if◌then◌else◌, Text, codes,
  includes, is_empty, split_at, join_with,
}
use eps_dapp.Chains.Address.{is_digit}

-- `groups[groups.length - 1] = "x"`.
abbrev pub mask_last : List Text → List Text
mask_last [] = []
mask_last (part ∷ []) = codes "x" ∷ []
mask_last (part ∷ next ∷ parts) = part ∷ mask_last (next ∷ parts)

-- `/^\d+$/`.
abbrev pub is_number : Text → Bool
is_number part = not (is_empty part) && all is_digit part

abbrev pub is_ipv4 : List Text → Bool
is_ipv4 parts = (length parts == 4) && all is_number parts

unfoldable pub mask_ip : Text → Text
unfolding split_at join_with includes
mask_ip ip =
    if is_ipv4 (split_at b'.' ip)
    then join_with b'.' (mask_last (split_at b'.' ip))
    else if includes (codes ":") ip
    then join_with b':' (mask_last (split_at b':' ip))
    else ip

-- `/^[0-9a-f]{32}$/`.
unfoldable pub is_token : Text → Bool
is_token token = (length token == 32) && all (λ c. is_digit c || (leb b'a' c && leb c b'f')) token
