-- ===== src/Calendar.antt =====
-- The calendar arithmetic of JavaScript's `Date` that the billing periods use, in UTC: a `Date` is
-- its time value, milliseconds since 1970-01-01T00:00:00Z (times before that are out of range).
-- Models `nextPeriodEnd` (lib/quota.ts), `addMonths` (app/api/admin/comp-grant/route.ts) and the
-- same three lines in `applyCheckoutCompleted` (app/api/webhooks/stripe/route.ts).
-- Months are counted from January 1970, so that month `n` is month `n % 12` of year 1970 + n / 12.
mod Months
mod Iso
mod Period
pub use Months.{month_length, month_start, month_index_from-bounds}
unfoldable pub use Months.{
  ms_per_day, day_of, time_in_day, month_index, day_in_month, get_month, set_month_from_year,
}
unfoldable pub use Iso.{iso_date, iso_time, to_iso_string, utc_text}
unfoldable pub use Period.{next_period_end, add_months}
pub use Period.{next_period_end_lem, next_period_end_bounds, add_months-index, add_months-lt}
