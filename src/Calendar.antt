-- ===== src/Calendar.antt =====
-- The parts of Go's package time that the code uses: instants, days and civil dates in UTC. An instant
-- is a number of microseconds since 1970. Day numbers start at 1 March of the year 0, so that a leap
-- day is the last day of its year. A date past the end of a month runs over into the next, as in
-- time.Date and AddDate.
pub mod RoundTrip
pub mod Later
use orgfin_diploma.Prelude.{ℕ, ◌+◌, ◌-◌, ◌*◌, ◌/◌, ◌%◌, ◌≡◌, refl, ltb, if◌then◌else◌}
use orgfin_diploma.Models.{Time}

pub record Civil : Type 0 where
  pub year : ℕ
  pub month : ℕ
  pub day : ℕ

unfoldable pub day_of : Time → ℕ
day_of t = t / 86400000000 + 719468

unfoldable pub time_of : ℕ → Time
time_of d = (d - 719468) * 86400000000

-- The years since March, with the months counted from March.
unfoldable pub days_before : ℕ → ℕ → ℕ
days_before y m = 365 * y + y / 4 - y / 100 + y / 400 + (153 * m + 2) / 5

unfoldable pub days_from_civil : ℕ → ℕ → ℕ → ℕ
days_from_civil y m d =
    (if ltb 2 m then days_before y (m - 3) else days_before (y - 1) (m + 9)) + d - 1

-- From the day of a March year: its month from March.
unfoldable pub civil_of_year : ℕ → ℕ → Civil
civil_of_year y doy =
    let m = (5 * doy + 2) / 153 in
    record {
      year = if ltb m 10 then y else y + 1;
      month = if ltb m 10 then m + 3 else m - 9;
      day = doy - (153 * m + 2) / 5 + 1;
    }

-- From the day of an era of 400 years.
unfoldable pub civil_of_era : ℕ → ℕ → Civil
civil_of_era era doe =
    let y = (doe - doe / 1460 + doe / 36524 - doe / 146096) / 365 in
    civil_of_year (y + era * 400) (doe - (365 * y + y / 4 - y / 100))

unfoldable pub civil_from_days : ℕ → Civil
civil_from_days d = civil_of_era (d / 146097) (d % 146097)

-- AddDate(0, n, 0) and AddDate(n, 0, 0)
unfoldable pub add_months : ℕ → ℕ → ℕ
add_months d n =
    let c = civil_from_days d in
    let k = c.month - 1 + n in days_from_civil (c.year + k / 12) (k % 12 + 1) c.day

unfoldable pub add_years : ℕ → ℕ → ℕ
add_years d n = let c = civil_from_days d in days_from_civil (c.year + n) c.month c.day

-- AddDate of an instant, which keeps the time of day.
unfoldable pub add_date_months : Time → ℕ → Time
add_date_months t n = time_of (add_months (day_of t) n) + t % 86400000000

unfoldable pub add_date_years : Time → ℕ → Time
add_date_years t n = time_of (add_years (day_of t) n) + t % 86400000000

unfoldable pub add_date_days : Time → ℕ → Time
add_date_days t n = t + n * 86400000000

-- The day before the first of the next month.
unfoldable pub last_day : ℕ → ℕ → ℕ
last_day y m = (civil_from_days (days_from_civil (y + m / 12) (m % 12 + 1) 1 - 1)).day

-- 31 January 2023 and one month later, 29 February 2024, its last day.
month_test :
    civil_from_days (add_months (days_from_civil 2023 1 31) 1)
    ≡ record { year = 2023; month = 3; day = 3 }
unfolding add_months days_from_civil civil_from_days civil_of_era civil_of_year days_before
month_test = refl

leap_test : last_day 2024 2 ≡ 29
unfolding last_day days_from_civil civil_from_days civil_of_era civil_of_year days_before
leap_test = refl

epoch_test : time_of (days_from_civil 1970 1 2) ≡ 86400000000
unfolding time_of days_from_civil days_before
epoch_test = refl
