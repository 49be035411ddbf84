-- ===== src/Tests/Calendar.antt =====
-- The calendar on dates.
use eps_dapp.Base.{◌≡◌, refl}
use eps_dapp.Calendar.{next_period_end, add_months}

-- 2026-01-31T12:00:00Z; February has no day 31, so the period ends on March 3.
month_overflow : next_period_end 1769860800000 ≡ 1772539200000
unfolding next_period_end
month_overflow = refl

-- 2024-02-29 and 24 months later, 2026-03-01.
leap_grant : add_months 1709164800000 24 ≡ 1772323200000
unfolding add_months
leap_grant = refl
