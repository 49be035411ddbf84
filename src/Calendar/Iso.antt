-- ===== src/Calendar/Iso.antt =====
-- `Date.toISOString`, for years of four digits, and the UTC time that the pages and the mails show.
use eps_dapp.Base.{ℕ, ◌+◌, ◌/◌, ◌%◌, ◌++◌, Text, codes}
use eps_dapp.Printing.{pad}
use eps_dapp.Calendar.Months.{month_index, day_in_month, time_in_day}

-- `YYYY-MM-DD`.
unfoldable pub iso_date : ℕ → Text
unfolding pad month_index day_in_month
iso_date t =
    pad 4 (1970 + month_index t / 12)
    ++ codes "-"
    ++ pad 2 (month_index t % 12 + 1)
    ++ codes "-"
    ++ pad 2 (day_in_month t + 1)

-- `HH:mm:ss`.
unfoldable pub iso_time : ℕ → Text
unfolding pad time_in_day
iso_time t =
    pad 2 (time_in_day t / 3600000)
    ++ codes ":"
    ++ pad 2 (time_in_day t / 60000 % 60)
    ++ codes ":"
    ++ pad 2 (time_in_day t / 1000 % 60)

unfoldable pub to_iso_string : ℕ → Text
unfolding iso_date iso_time pad
to_iso_string t =
    iso_date t ++ codes "T" ++ iso_time t ++ codes "." ++ pad 3 (time_in_day t % 1000) ++ codes "Z"

-- `toISOString().replace("T", " ").replace(/\.\d+Z$/, " UTC")`.
unfoldable pub utc_text : ℕ → Text
unfolding iso_date iso_time
utc_text t = iso_date t ++ codes " " ++ iso_time t ++ codes " UTC"
