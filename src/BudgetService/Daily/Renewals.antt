-- ===== src/BudgetService/Daily/Renewals.antt =====
-- What DailyProcessing of backend/internal/services/budgets/service.go is to make of a budget that
-- repeats: an independent description of the copy, and of the table with the copies.
use orgfin_diploma.Calendar.{add_date_days, add_date_months, add_date_years}
use orgfin_diploma.BudgetService.Daily.{copy_of, new_start, new_end}
use orgfin_diploma.Repositories.Budgets.{inserted_row}
use orgfin_diploma.Models.{Budget, Time}
use orgfin_diploma.Prelude.{
  ℕ, List, [], ◌∷◌, Option, none, some, String, false, Bool-cases, inl, inr, pos, append_text,
  same_text, if◌then◌else◌, ◌≡◌, refl, ◌+◌, ◌-◌, Bool, ◌⊎◌, ap, ◌∙◌, true,
}

-- The step of a period, which is the same for both dates; a custom period has none.
abbrev step_of : String → Option (Time → Time)
step_of period =
    if same_text period "DAILY"
    then some (λ t. add_date_days t 1)
    else if same_text period "WEEKLY"
    then some (λ t. add_date_days t 7)
    else if same_text period "MONTHLY"
    then some (λ t. add_date_months t 1)
    else if same_text period "YEARLY"
    then some (λ t. add_date_years t 1)
    else none

-- The next range: both dates make the step, or the range of a custom period is put behind itself.
abbrev next_range : Option (Time → Time) → Time → Time → Time × Time
next_range none start end = (end, end + end - start)
next_range (some step) start end = (step start, step end)

-- The copy of a budget: its next range, a new id, a marked name, nothing collected, and in use.
abbrev pub renewal : Budget → ℕ → Budget
renewal b id =
    let (start, end) = next_range (step_of b.period) b.start_date b.end_date in
    record {
      id = id;
      user_id = b.user_id;
      name = append_text b.name " (copy)";
      currency_id = b.currency_id;
      target_amount = b.target_amount;
      collected_amount = pos 0;
      period = b.period;
      repeat = b.repeat;
      start_date = start;
      end_date = end;
      included_categories = b.included_categories;
      is_archived = false;
      comment = b.comment;
      is_deleted = false;
    }

-- A table with the renewals of those of some budgets that repeat, with successive ids.
unfoldable pub with_renewals : List Budget → ℕ → List Budget → List Budget
with_renewals [] n bs = bs
with_renewals (b ∷ rest) n bs =
    let more = with_renewals rest (n + 1) (renewal b n ∷ bs) in
    let same = with_renewals rest n bs in if b.repeat then more else same

next_dates :
    (b : Budget) → next_range (step_of b.period) b.start_date b.end_date ≡ (new_start b, new_end b)
unfolding new_start new_end
next_dates b = elim (Bool-cases (same_text b.period "DAILY")) [
  | inl e ↦ rw e refl
  | inr e₁ ↦ elim (Bool-cases (same_text b.period "WEEKLY")) [
    | inl e ↦ rw (e₁, e) refl
    | inr e₂ ↦ elim (Bool-cases (same_text b.period "MONTHLY")) [
      | inl e ↦ rw (e₁, e₂, e) refl
      | inr e₃ ↦ elim (Bool-cases (same_text b.period "YEARLY")) [
        | inl e ↦ rw (e₁, e₂, e₃, e) refl
        | inr e ↦ rw (e₁, e₂, e₃, e) refl
      ]
    ]
  ]
]

-- The row that a round inserts.
inserted_copy : (b : Budget) (n : ℕ) → inserted_row (copy_of b) n ≡ renewal b n
unfolding copy_of
inserted_copy b n = rw (next_dates b) refl

-- The next id, and the table, after the copy of a budget that repeats.
abbrev pub next_id : Budget → ℕ → ℕ
next_id y n = if y.repeat then n + 1 else n

abbrev pub with_copy : Budget → ℕ → List Budget → List Budget
with_copy y n bs = if y.repeat then inserted_row (copy_of y) n ∷ bs else bs

-- A copy is put into the table, or nothing is.
pub with_copy_cases :
    (y : Budget) (n : ℕ) (bs : List Budget)
    → ((next_id y n ≡ n + 1) × (with_copy y n bs ≡ inserted_row (copy_of y) n ∷ bs))
      ⊎ ((next_id y n ≡ n) × (with_copy y n bs ≡ bs))
with_copy_cases y n bs = elim (Bool-cases y.repeat) [
  | inl e ↦ inl (
    ap (λ b. if b then n + 1 else n) e,
    ap (λ b. if b then inserted_row (copy_of y) n ∷ bs else bs) e,
  )
  | inr e ↦ inr (
    ap (λ b. if b then n + 1 else n) e,
    ap (λ b. if b then inserted_row (copy_of y) n ∷ bs else bs) e,
  )
]

-- The same for some budgets, in their order.
unfoldable pub with_copies : List Budget → ℕ → List Budget → List Budget
with_copies [] n bs = bs
with_copies (y ∷ ys) n bs = with_copies ys (next_id y n) (with_copy y n bs)

pub with_copies-renewals :
    (ys : List Budget) (n : ℕ) (bs : List Budget) → with_copies ys n bs ≡ with_renewals ys n bs
unfolding with_copies with_renewals
with_copies-renewals [] n bs = refl
with_copies-renewals (y ∷ ys) n bs =
    repeated y.repeat (with_copies-renewals ys (n + 1) (renewal y n ∷ bs))
      (with_copies-renewals ys n bs)
  where
    repeated :
        (r : Bool)
        → with_copies ys (n + 1) (renewal y n ∷ bs) ≡ with_renewals ys (n + 1) (renewal y n ∷ bs)
        → with_copies ys n bs ≡ with_renewals ys n bs
        → with_copies ys
            (if r then n + 1 else n)
            (if r then inserted_row (copy_of y) n ∷ bs else bs)
          ≡ (if r then with_renewals ys (n + 1) (renewal y n ∷ bs) else with_renewals ys n bs)
    repeated true more same = ap (λ x. with_copies ys (n + 1) (x ∷ bs)) (inserted_copy y n) ∙ more
    repeated false more same = same

unfoldable pub last_id : List Budget → ℕ → ℕ
last_id [] n = n
last_id (y ∷ ys) n = last_id ys (next_id y n)
