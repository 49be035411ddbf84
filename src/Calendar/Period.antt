-- ===== src/Calendar/Period.antt =====
-- Billing periods: one calendar month for a paid plan, a number of months for a granted one.
use eps_dapp.Base.{ℕ, zero, suc, ◌+◌, ◌*◌, ◌≤◌, ◌≡◌, refl, ap, arith}
use native.Mathlib.Nat.{add-zero, add-suc}
use eps_dapp.Calendar.Months.{
  ms_per_day, month_length, month_length_bounds, month_start, day_of, time_in_day, month_index,
  month_index_bounds, day_in_month, get_month, set_month_from_year,
}

unfoldable pub next_period_end : ℕ → ℕ
unfolding get_month set_month_from_year
next_period_end from = set_month_from_year from (get_month from + 1)

unfoldable pub add_months : ℕ → ℕ → ℕ
unfolding get_month set_month_from_year
add_months from months = set_month_from_year from (get_month from + months)

-- Months are added to the month's index, whatever the year.
pub add_months-index :
    (t months : ℕ)
    → add_months t months
      ≡ (month_start (month_index t + months) + day_in_month t) * ms_per_day + time_in_day t
unfolding add_months
add_months-index t months =
    ap (λ n. (month_start n + day_in_month t) * ms_per_day + time_in_day t) (omega arith)

split_time :
    (t : ℕ) → t ≡ (month_start (month_index t) + day_in_month t) * ms_per_day + time_in_day t
unfolding day_in_month day_of time_in_day
split_time t = omega (arith, month_index_bounds t)

month_start-suc : (n : ℕ) → month_start (suc n) ≡ month_start n + month_length n
unfolding month_start
month_start-suc n = refl

next_period_end-index :
    (t : ℕ)
    → next_period_end t
      ≡ (month_start (suc (month_index t)) + day_in_month t) * ms_per_day + time_in_day t
unfolding next_period_end
next_period_end-index t =
    ap (λ n. (month_start n + day_in_month t) * ms_per_day + time_in_day t)
      {y = suc (month_index t)} (omega arith)

-- The next period ends as many days later as the current month has.
pub next_period_end_lem :
    (t : ℕ) → next_period_end t ≡ t + month_length (month_index t) * ms_per_day
next_period_end_lem t =
    omega (arith, next_period_end-index t, month_start-suc (month_index t), split_time t)

-- The next period ends 28 to 31 days after its start.
pub next_period_end_bounds :
    (t : ℕ) → (t + 28 * ms_per_day ≤ next_period_end t) × (next_period_end t ≤ t + 31 * ms_per_day)
next_period_end_bounds t = omega (arith, next_period_end_lem t, month_length_bounds (month_index t))

month_start-add : (n k : ℕ) → month_start n + 28 * k ≤ month_start (n + k)
month_start-add n zero = simp add-zero (omega arith)
month_start-add n (suc k) =
    rw (add-suc n k)
      (omega (arith, month_start-add n k, month_start-suc (n + k), month_length_bounds (n + k)))

-- A grant of some months ends at least 28 days a month after it begins.
pub add_months-lt : (t months : ℕ) → t + 28 * months * ms_per_day ≤ add_months t months
add_months-lt t months =
    omega (arith, add_months-index t months, split_time t, month_start-add (month_index t) months)
