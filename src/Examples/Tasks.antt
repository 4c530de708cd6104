-- ===== src/Examples/Tasks.antt =====
-- The tasks of the budget worker, at the database of the budgets.
use orgfin_diploma.Examples.Rates.{bank}
use orgfin_diploma.CurrencyService.Converter.{convert_amount-IsConverter}
use orgfin_diploma.BudgetWorker.UpToDate.{IsUpToDate, process_tasks-IsUpToDate}
use orgfin_diploma.Exec.{ok}
use orgfin_diploma.Examples.Budgets.{planner, home, home_unique}
use orgfin_diploma.Models.{BudgetTask}
use orgfin_diploma.BudgetWorker.{process_tasks}
use orgfin_diploma.Prelude.{List, [], ◌∷◌, ◌≡◌, All, refl}

abbrev queued : List BudgetTask
queued = record { user_id = 1; account_id = 1 } ∷ record { user_id = 2; account_id = 5 } ∷ []

process_tasks-IsUpToDate_example :
    let (r, _, s') = process_tasks planner queued [] home in
    (r ≡ ok tt)
    × All (λ t. IsUpToDate planner (convert_amount-IsConverter bank) t.user_id s') queued
process_tasks-IsUpToDate_example =
    process_tasks-IsUpToDate planner (convert_amount-IsConverter bank) queued home
      (home_unique, (refl, (refl, tt)))
