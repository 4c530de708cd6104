-- ===== src/BudgetService/Daily/Behind.antt =====
-- The new dates of calculateNewDates of backend/internal/services/budgets/service.go against the old
-- ones, and a budget that is some days behind.
use orgfin_diploma.Calendar.Later.{add_date_months-later, add_date_years-later}
use orgfin_diploma.Repositories.Budgets.{fits, inserted_row, is_period}
use orgfin_diploma.Calendar.{add_date_days}
use orgfin_diploma.BudgetService.Daily.{new_end, copy_of, new_start}
use orgfin_diploma.Models.{Budget, Time}
use orgfin_diploma.Prelude.{
  ℕ, String, Bool, ◌≤◌, ◌≡◌, suc, ◌+◌, true, same_text, false, ◌-◌, arith, Bool-cases, ◌||◌, ◌*◌,
  leb, inl, text_length-append, text_length, append_text, inr, refl,
}

-- The periods whose dates move by the calendar.
abbrev pub is_fixed : String → Bool
is_fixed p =
    same_text p "DAILY" || (same_text p "WEEKLY" || (same_text p "MONTHLY" || same_text p "YEARLY"))

-- A budget that ended some days ago at most, and whose copies fit the columns until then.
pub record IsBehind (days : ℕ) (now : Time) (b : Budget) : Type 0 where
  pub late : now ≤ b.end_date + days * 86400000000
  pub short : text_length b.name + 7 * days ≤ 200
  pub period : is_period b.period ≡ true
  pub lasting : is_fixed b.period ≡ false → b.start_date + 86400000000 ≤ b.end_date

fixed_later : (b : Budget) → is_fixed b.period ≡ true → b.end_date + 86400000000 ≤ new_end b
unfolding new_end add_date_days
fixed_later b h = elim (Bool-cases (same_text b.period "DAILY")) [
  | inl e ↦ rw e (omega arith)
  | inr e ↦ rw e (elim (Bool-cases (same_text b.period "WEEKLY")) [
    | inl f ↦ rw f (omega arith)
    | inr f ↦ rw f (elim (Bool-cases (same_text b.period "MONTHLY")) [
      | inl g ↦ rw g (omega (arith, add_date_months-later b.end_date))
      | inr g ↦ rw g (elim (Bool-cases (same_text b.period "YEARLY")) [
        | inl k ↦ rw k (omega (arith, add_date_years-later b.end_date))
        | inr k ↦ cc (rw (e, f, g, k) at h)
      ])
    ])
  ])
]

-- A period of another kind moves by its own duration.
other_dates :
    (b : Budget)
    → is_fixed b.period ≡ false
    → (new_start b ≡ b.end_date) × (new_end b ≡ b.end_date + b.end_date - b.start_date)
unfolding new_start new_end
other_dates b h = elim (Bool-cases (same_text b.period "DAILY")) [
  | inl e ↦ cc (rw e at h)
  | inr e ↦ elim (Bool-cases (same_text b.period "WEEKLY")) [
    | inl f ↦ cc (rw (e, f) at h)
    | inr f ↦ elim (Bool-cases (same_text b.period "MONTHLY")) [
      | inl g ↦ cc (rw (e, f, g) at h)
      | inr g ↦ elim (Bool-cases (same_text b.period "YEARLY")) [
        | inl k ↦ cc (rw (e, f, g, k) at h)
        | inr k ↦ rw (e, f, g, k) (refl, refl)
      ]
    ]
  ]
]

new_end-later :
    (b : Budget)
    → (is_fixed b.period ≡ false → b.start_date + 86400000000 ≤ b.end_date)
    → b.end_date + 86400000000 ≤ new_end b
new_end-later b lasting = elim (Bool-cases (is_fixed b.period)) [
  | inl e ↦ fixed_later b e
  | inr e ↦ omega (arith, (other_dates b e).1, lasting e)
]

pub copy-IsBehind :
    (k : ℕ) (now : Time) (b : Budget) (n : ℕ)
    → IsBehind (suc k) now b
    → IsBehind k now (inserted_row (copy_of b) n)
unfolding copy_of
copy-IsBehind k now b n h = record {
  late = omega (arith, new_end-later b h.lasting, h.late);
  short = omega (arith, text_length-append b.name " (copy)", h.short);
  period = h.period;
  lasting =
      λ other. omega (arith, (other_dates b other).0, (other_dates b other).1, h.lasting other);
}

pub copy_fits : (k : ℕ) (now : Time) (b : Budget) → IsBehind (suc k) now b → fits (copy_of b) ≡ true
unfolding copy_of fits
copy_fits k now b h =
    let short : leb (text_length (append_text b.name " (copy)")) 200 ≡ true =
      ground (arith, text_length-append b.name " (copy)", h.short) in
    rw (short, h.period)
