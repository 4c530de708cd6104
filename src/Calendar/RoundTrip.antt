-- ===== src/Calendar/RoundTrip.antt =====
-- A day's civil date leads back to the day, and a month or a year later is later: AddDate as
-- backend/internal/services uses it.
use orgfin_diploma.Prelude.{
  ℕ, ◌≤◌, ◌*◌, ◌<◌, ◌+◌, ◌-◌, ◌≡◌, ◌/◌, if◌then◌else◌, arith, ltb, Bool-cases, inl, inr, ◌∙◌, false,
  ◌%◌, true, ap,
}
use orgfin_diploma.Calendar.{
  days_before, days_from_civil, civil_of_year, civil_of_era, civil_from_days,
}

-- The days before a March year.
abbrev year_start : ℕ → ℕ
year_start y = 365 * y + y / 4 - y / 100 + y / 400

month_le :
    (doy : ℕ)
    → doy < 366
    → ((5 * doy + 2) / 153 ≤ 11) × ((153 * ((5 * doy + 2) / 153) + 2) / 5 ≤ doy)
month_le doy h = (omega arith, omega arith)

-- The two branches of a date, by the month from March.
spring_days : (y m d : ℕ) → days_from_civil y (m + 3) d ≡ days_before y m + d - 1
unfolding days_from_civil
spring_days y m d =
    ap (λ b. (if b then days_before y (m + 3 - 3) else days_before (y - 1) (m + 3 + 9)) + d - 1)
      late
    ∙ ap (λ k. days_before y k + d - 1) same
  where
    late : ltb 2 (m + 3) ≡ true
    late = ground arith

    same : m + 3 - 3 ≡ m
    same = omega arith

winter_days :
    (y m d : ℕ) → 10 ≤ m → m ≤ 11 → days_from_civil (y + 1) (m - 9) d ≡ days_before y m + d - 1
unfolding days_from_civil
winter_days y m d le few =
    ap
      (λ b.
        (if b then days_before (y + 1) (m - 9 - 3) else days_before (y + 1 - 1) (m - 9 + 9))
        + d
        - 1)
      early
    ∙ ap (λ k. days_before k (m - 9 + 9) + d - 1) same
    ∙ ap (λ k. days_before y k + d - 1) month
  where
    early : ltb 2 (m - 9) ≡ false
    early = ground arith

    same : y + 1 - 1 ≡ y
    same = omega arith

    month : m - 9 + 9 ≡ m
    month = omega arith

date_days :
    (y m d : ℕ)
    → m ≤ 11
    → days_from_civil (if ltb m 10 then y else y + 1) (if ltb m 10 then m + 3 else m - 9) d
      ≡ days_before y m + d - 1
date_days y m d few = elim (Bool-cases (ltb m 10)) [
  | inl e ↦ rw e (spring_days y m d)
  | inr e ↦ rw e (winter_days y m d (ground arith) few)
]

days_before-start :
    (y m d : ℕ)
    → (153 * m + 2) / 5 ≤ d
    → days_before y m + (d - (153 * m + 2) / 5 + 1) - 1 ≡ year_start y + d
unfolding days_before
days_before-start y m d h = omega arith

civil_of_year-days :
    (y doy : ℕ)
    → doy < 366
    → let c = civil_of_year y doy in days_from_civil c.year c.month c.day ≡ year_start y + doy
unfolding civil_of_year
civil_of_year-days y doy h =
    date_days y ((5 * doy + 2) / 153) (doy - (153 * ((5 * doy + 2) / 153) + 2) / 5 + 1)
      (month_le doy h).0
    ∙ days_before-start y ((5 * doy + 2) / 153) doy (month_le doy h).1

era_year :
    (doe : ℕ)
    → doe < 146097
    → let y = (doe - doe / 1460 + doe / 36524 - doe / 146096) / 365 in
      (y < 400) × (365 * y + y / 4 - y / 100 ≤ doe) × (doe < 365 * y + y / 4 - y / 100 + 366)
era_year doe h = (omega arith, omega arith, omega arith)

era_start :
    (era y : ℕ) → y < 400 → year_start (y + era * 400) ≡ era * 146097 + (365 * y + y / 4 - y / 100)
era_start era y h = omega arith

civil_of_era-days :
    (era doe : ℕ)
    → doe < 146097
    → let c = civil_of_era era doe in days_from_civil c.year c.month c.day ≡ era * 146097 + doe
unfolding civil_of_era
civil_of_era-days era doe h =
    let (few, le, lt) = era_year doe h in
    civil_of_year-days _ _ (omega arith) ∙ omega (arith, era_start era _ few)

-- The civil date of a day is that day's.
pub civil_from_days-days :
    (d : ℕ) → let c = civil_from_days d in days_from_civil c.year c.month c.day ≡ d
unfolding civil_from_days
civil_from_days-days d = civil_of_era-days (d / 146097) (d % 146097) (omega arith) ∙ omega arith
