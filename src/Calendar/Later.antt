-- ===== src/Calendar/Later.antt =====
-- AddDate of one month or one year is later by 28 days at least.
use orgfin_diploma.Models.{Time}
use orgfin_diploma.Prelude.{
  ℕ, ◌≤◌, arith, ◌<◌, ◌≡◌, ◌+◌, ◌-◌, ltb, false, true, Bool-cases, ◌/◌, ◌%◌, inl, ◌*◌, inr,
  equal_or_not, ap, ◌∙◌,
}
use orgfin_diploma.Calendar.{
  Civil, days_before, days_from_civil, civil_of_year, civil_of_era, civil_from_days, day_of,
  time_of, add_months, add_years, add_date_months, add_date_years,
}
use orgfin_diploma.Calendar.RoundTrip.{civil_from_days-days}

-- A month of the calendar; January and February belong to a March year before.
record IsCivil (c : Civil) : Type 0 where
  first : 1 ≤ c.month
  last : c.month ≤ 12
  early : c.month ≤ 2 → 1 ≤ c.year
  day : 1 ≤ c.day

civil_of_year-IsCivil : (y doy : ℕ) → doy < 366 → IsCivil (civil_of_year y doy)
unfolding civil_of_year
civil_of_year-IsCivil y doy h = ground arith

civil_from_days-IsCivil : (d : ℕ) → IsCivil (civil_from_days d)
unfolding civil_from_days civil_of_era
civil_from_days-IsCivil d = civil_of_year-IsCivil _ _ (omega arith)

-- The days of a month of the March year, in one formula.
spring : (y m d : ℕ) → 3 ≤ m → days_from_civil y m d ≡ days_before y (m - 3) + d - 1
unfolding days_from_civil
spring y m d h = let e : ltb 2 m ≡ true = ground arith in rw e

winter : (y m d : ℕ) → m ≤ 2 → days_from_civil y m d ≡ days_before (y - 1) (m + 9) + d - 1
unfolding days_from_civil
winter y m d h = let e : ltb 2 m ≡ false = ground arith in rw e

next_spring :
    (y m d : ℕ) → 3 ≤ m → m < 12 → 1 ≤ d → days_from_civil y m d + 28 ≤ days_from_civil y (m + 1) d
unfolding days_before
next_spring y m d h k p = omega (arith, spring y m d h, spring y (m + 1) d (omega arith))

new_year : (y d : ℕ) → 1 ≤ d → days_from_civil y 12 d + 28 ≤ days_from_civil (y + 1) 1 d
unfolding days_before
new_year y d p = omega (arith, spring y 12 d (omega arith), winter (y + 1) 1 d (omega arith))

february : (y d : ℕ) → 1 ≤ d → days_from_civil y 1 d + 28 ≤ days_from_civil y 2 d
unfolding days_before
february y d p = omega (arith, winter y 1 d (omega arith), winter y 2 d (omega arith))

march : (y d : ℕ) → 1 ≤ y → 1 ≤ d → days_from_civil y 2 d + 28 ≤ days_from_civil y 3 d
unfolding days_before
march y d q p = omega (arith, winter y 2 d (omega arith), spring y 3 d (omega arith))

next_year_spring :
    (y m d : ℕ) → 3 ≤ m → m ≤ 12 → 1 ≤ d → days_from_civil y m d + 28 ≤ days_from_civil (y + 1) m d
unfolding days_before
next_year_spring y m d h k p = omega (arith, spring y m d h, spring (y + 1) m d h)

next_year_winter :
    (y m d : ℕ) → m ≤ 2 → 1 ≤ y → 1 ≤ d → days_from_civil y m d + 28 ≤ days_from_civil (y + 1) m d
unfolding days_before
next_year_winter y m d h q p = omega (arith, winter y m d h, winter (y + 1) m d h)

-- The date one month later, over the end of a year.
next_month : Civil → ℕ
next_month c = days_from_civil (c.year + (c.month - 1 + 1) / 12) ((c.month - 1 + 1) % 12 + 1) c.day

to_next_month :
    (c : Civil) (y m : ℕ)
    → c.year + (c.month - 1 + 1) / 12 ≡ y
    → (c.month - 1 + 1) % 12 + 1 ≡ m
    → next_month c ≡ days_from_civil y m c.day
unfolding next_month
to_next_month c y m e f =
    ap (λ k. days_from_civil k ((c.month - 1 + 1) % 12 + 1) c.day) e
    ∙ ap (λ k. days_from_civil y k c.day) f

month_later : (c : Civil) → IsCivil c → days_from_civil c.year c.month c.day + 28 ≤ next_month c
month_later c v = elim (Bool-cases (ltb 2 c.month)) [
  | inl late ↦ elim (equal_or_not c.month 12) [
    | inl e ↦
        rw (to_next_month c (c.year + 1) 1 (omega (arith, e)) (omega (arith, e)), e)
          (new_year c.year c.day v.day)
    | inr ne ↦
        let bound : c.month < 12 = ground (arith, v.last, ne) in
        rw
          (to_next_month c c.year (c.month + 1) (omega (arith, bound, v.first))
            (omega (arith, bound, v.first)))
          (next_spring c.year c.month c.day (ground arith) bound v.day)
  ]
  | inr soon ↦ elim (equal_or_not c.month 1) [
    | inl e ↦
        rw (to_next_month c c.year 2 (omega (arith, e)) (omega (arith, e)), e)
          (february c.year c.day v.day)
    | inr ne ↦
        let e : c.month ≡ 2 = ground (arith, v.first) in
        rw (to_next_month c c.year 3 (omega (arith, e)) (omega (arith, e)), e)
          (march c.year c.day (v.early (omega (arith, e))) v.day)
  ]
]

year_later :
    (c : Civil)
    → IsCivil c
    → days_from_civil c.year c.month c.day + 28 ≤ days_from_civil (c.year + 1) c.month c.day
year_later c v = elim (Bool-cases (ltb 2 c.month)) [
  | inl late ↦ next_year_spring c.year c.month c.day (ground arith) v.last v.day
  | inr soon ↦
      let le : c.month ≤ 2 = ground arith in
      next_year_winter c.year c.month c.day le (v.early le) v.day
]

add_months-later : (d : ℕ) → d + 28 ≤ add_months d 1
unfolding add_months next_month
add_months-later d =
    omega
      (arith, month_later (civil_from_days d) (civil_from_days-IsCivil d), civil_from_days-days d)

add_years-later : (d : ℕ) → d + 28 ≤ add_years d 1
unfolding add_years
add_years-later d =
    omega
      (arith, year_later (civil_from_days d) (civil_from_days-IsCivil d), civil_from_days-days d)

-- An instant one month later is later by 28 days at least.
pub add_date_months-later : (t : Time) → t + 28 * 86400000000 ≤ add_date_months t 1
unfolding add_date_months day_of time_of
add_date_months-later t = omega (arith, add_months-later (day_of t))

pub add_date_years-later : (t : Time) → t + 28 * 86400000000 ≤ add_date_years t 1
unfolding add_date_years day_of time_of
add_date_years-later t = omega (arith, add_years-later (day_of t))
