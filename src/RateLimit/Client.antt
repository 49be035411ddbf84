-- ===== src/RateLimit/Client.antt =====
-- `clientKey` (lib/rate-limit.ts) and `clientIpFromHeaders` (lib/rateLimit.ts): the caller's
-- address, from the headers `x-forwarded-for` and `x-real-ip` (`none` when a header is missing).
use eps_dapp.Base.{Option, none, some, is_empty, if◌then◌else◌, Text, codes, before, trim}

-- `x-real-ip`, trimmed, or "unknown" when nothing is in it.
unfoldable pub real_ip : Option Text → Text
real_ip none = codes "unknown"
real_ip (some ip) = if is_empty (trim ip) then codes "unknown" else trim ip

-- A header that is there but empty is falsy, as one that is missing.
unfoldable pub client_key : Option Text → Option Text → Text
unfolding real_ip
client_key none real = real_ip real
client_key (some forwarded) real =
    if is_empty forwarded
    then real_ip real
    else let first = trim (before b',' forwarded) in if is_empty first then real_ip real else first

unfoldable pub client_ip_from_headers : Option Text → Option Text → Text
unfolding real_ip
client_ip_from_headers none real = real_ip real
client_ip_from_headers (some forwarded) real =
    if is_empty forwarded
    then real_ip real
    else let first = trim (before b',' forwarded) in if is_empty first then real_ip real else first
