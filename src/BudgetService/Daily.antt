-- ===== src/BudgetService/Daily.antt =====
-- DailyProcessing and calculateNewDates of backend/internal/services/budgets/service.go.
pub mod Renewals
pub mod Pass
pub mod Behind
pub mod Continued
pub mod Kept
pub mod CatchUp
use orgfin_diploma.Calendar.{add_date_days, add_date_months, add_date_years}
use orgfin_diploma.BudgetService.{Service}
use orgfin_diploma.Exec.{◌>>=◌, Exec, pure, ◌>>◌, try}
use orgfin_diploma.Models.{Budget, BudgetModel, Time}
use orgfin_diploma.Repositories.Budgets
use orgfin_diploma.Prelude.{
  ℕ, List, Option, some, append_text, suc, if◌then◌else◌, pos, none, same_text, false, ◌∷◌, [], ◌+◌,
  ◌-◌,
}

-- calculateNewDates. A duration may be negative: the new end is the end plus the end less the start.
unfoldable pub new_start : Budget → Time
new_start b =
    if same_text b.period "DAILY"
    then add_date_days b.start_date 1
    else if same_text b.period "WEEKLY"
    then add_date_days b.start_date 7
    else if same_text b.period "MONTHLY"
    then add_date_months b.start_date 1
    else if same_text b.period "YEARLY"
    then add_date_years b.start_date 1
    else b.end_date

unfoldable pub new_end : Budget → Time
new_end b =
    if same_text b.period "DAILY"
    then add_date_days b.end_date 1
    else if same_text b.period "WEEKLY"
    then add_date_days b.end_date 7
    else if same_text b.period "MONTHLY"
    then add_date_months b.end_date 1
    else if same_text b.period "YEARLY"
    then add_date_years b.end_date 1
    else b.end_date + b.end_date - b.start_date

-- The struct newBudget; the insert gives it its id.
unfoldable pub copy_of : Budget → Budget
unfolding new_start new_end
copy_of b = record b {
  id = 0;
  name = append_text b.name " (copy)";
  collected_amount = pos 0;
  start_date = new_start b;
  end_date = new_end b;
  is_archived = false;
  is_deleted = false;
}

-- A budget's round: without a copy of a repeating budget it is not archived. The answer counts 1 for
-- a budget that is processed; an error is logged.
unfoldable pub process : Budget → Exec (Unit {0})
unfolding copy_of ◌>>=◌
process b =
    if b.repeat then (do Budgets.create (copy_of b); Budgets.archive b.id) else Budgets.archive b.id

abbrev pub count_processed : Option (Unit {0}) → ℕ → ℕ
count_processed none n = n
count_processed (some u) n = suc n

unfoldable pub process_each : List BudgetModel → Exec ℕ
unfolding process
process_each [] = pure 0
process_each (b ∷ bs) = do
  done ← try (process b.row)
  processed ← process_each bs
  pure (count_processed done processed)

unfoldable pub daily_processing : Service → Time → Exec ℕ
unfolding process_each
daily_processing svc now = do
  outdated ← Budgets.get_outdated_budgets svc.ties now
  process_each outdated
