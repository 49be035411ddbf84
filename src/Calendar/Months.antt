-- ===== src/Calendar/Months.antt =====
-- Months as counted from January 1970, and the parts of a time value.
use eps_dapp.Base.{
  ℕ, zero, suc, ◌+◌, ◌-◌, ◌*◌, ◌/◌, ◌%◌, ◌≤◌, ◌<◌, ◌≡◌, refl, Bool, not, ◌&&◌, ◌||◌, arith, ltb,
  ◌==◌, if◌then◌else◌,
}

abbrev pub ms_per_day : ℕ
ms_per_day = 86400000

is_leap : ℕ → Bool
is_leap year = (year % 4 == 0) && (not (year % 100 == 0) || (year % 400 == 0))

-- The days of month `n`.
unfoldable pub month_length : ℕ → ℕ
unfolding is_leap
month_length n =
    let m = n % 12 in
    if m == 1
    then (if is_leap (1970 + n / 12) then 29 else 28)
    else if (m == 3 || m == 5) || (m == 8 || m == 10)
    then 30
    else 31

pub month_length_bounds : (n : ℕ) → (28 ≤ month_length n) × (month_length n ≤ 31)
unfolding month_length
month_length_bounds n = ground arith

-- The day, counted from 1970-01-01, on which month `n` begins.
unfoldable pub month_start : ℕ → ℕ
month_start zero = 0
month_start (suc n) = month_start n + month_length n

-- The month of a day: from month `n`, with `rest` days to go from its first day.
unfoldable pub month_index_from : ℕ → ℕ → ℕ → ℕ
month_index_from zero n rest = n
month_index_from (suc fuel) n rest =
    let later = month_index_from fuel (suc n) (rest - month_length n) in
    if ltb rest (month_length n) then n else later

-- With more fuel than days the search ends at the month that holds the day.
pub month_index_from-bounds :
    (fuel n rest : ℕ)
    → rest < fuel
    → (month_start (month_index_from fuel n rest) ≤ month_start n + rest)
      × (month_start n + rest < month_start (suc (month_index_from fuel n rest)))
unfolding month_index_from month_start
month_index_from-bounds zero n rest h = elim h [ ]
month_index_from-bounds (suc fuel) n rest h =
    ground
      (arith, month_length_bounds n, month_index_from-bounds fuel (suc n) (rest - month_length n))

unfoldable pub day_of : ℕ → ℕ
day_of t = t / ms_per_day

unfoldable pub time_in_day : ℕ → ℕ
time_in_day t = t % ms_per_day

-- `12 * (getFullYear() - 1970) + getMonth()`.
unfoldable pub month_index : ℕ → ℕ
unfolding month_index_from day_of month_length
month_index t = month_index_from (suc (day_of t)) 0 (day_of t)

pub month_index_bounds :
    (t : ℕ)
    → (month_start (month_index t) ≤ day_of t) × (day_of t < month_start (suc (month_index t)))
unfolding month_index
month_index_bounds t =
    omega
      (arith, month_index_from-bounds (suc (day_of t)) 0 (day_of t) (omega arith), month_start_zero)
  where
    month_start_zero : month_start 0 ≡ 0
    month_start_zero = unfold month_start in refl

-- `getDate() - 1`.
unfoldable pub day_in_month : ℕ → ℕ
unfolding day_of month_index month_start
day_in_month t = day_of t - month_start (month_index t)

-- `getMonth()`.
unfoldable pub get_month : ℕ → ℕ
unfolding month_index
get_month t = month_index t % 12

-- `setMonth(m)`: the day of the month and the time of day are kept, counted from month `m` of the
-- year of `t`; a day that the month does not have runs over into the next month.
unfoldable pub set_month_from_year : ℕ → ℕ → ℕ
unfolding month_index day_in_month time_in_day month_start
set_month_from_year t m =
    (month_start (12 * (month_index t / 12) + m) + day_in_month t) * ms_per_day + time_in_day t
