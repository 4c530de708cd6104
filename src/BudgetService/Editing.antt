-- ===== src/BudgetService/Editing.antt =====
-- Create, Update, Delete, Archive and GetByUserID of backend/internal/services/budgets/service.go. A
-- recalculation that fails after the row is written is logged and dropped.
pub mod Rejects
pub mod Reads
pub mod Ownership
pub mod Isolation
use orgfin_diploma.BudgetService.Recalc.{recalculate_budget}
use orgfin_diploma.BudgetService.Csv.{categories_to_csv}
use orgfin_diploma.Calendar.{add_date_days}
use orgfin_diploma.Repositories.Budgets.{Include}
use orgfin_diploma.BudgetService.{Service, BudgetParams, parsed_or, parse_date}
use orgfin_diploma.Models.{BudgetModel, Budget, Time}
use orgfin_diploma.Exec.{Exec, ◌>>◌, ◌>>=◌, no_rows_as, lift, Error, raise_if, try, pure}
use orgfin_diploma.Repositories.Budgets
use orgfin_diploma.Repositories.Lookups
use orgfin_diploma.Prelude.{ℕ, Option, pos, some, false, [], none, List, not, ◌==◌}

-- The row of the params; the end is made inclusive by one day.
unfoldable pub with_params : Service → BudgetParams → Time → Time → Budget → Budget
with_params svc p start_date end_date b = record b {
  name = p.name;
  currency_id = p.currency_id;
  target_amount = p.target_amount;
  period = svc.to_upper p.period;
  repeat = p.repeat;
  start_date = start_date;
  end_date = add_date_days end_date 1;
  included_categories = categories_to_csv p.categories;
  comment = p.comment;
}

-- A struct of a user with its other fields zero.
abbrev pub blank : ℕ → Budget
blank user_id = record {
  id = 0;
  user_id = user_id;
  name = "";
  currency_id = 0;
  target_amount = pos 0;
  collected_amount = pos 0;
  period = "";
  repeat = false;
  start_date = 0;
  end_date = 0;
  included_categories = [];
  is_archived = false;
  comment = none;
  is_deleted = false;
}

abbrev pub recalculated_or : BudgetModel → Option BudgetModel → BudgetModel
recalculated_or b none = b
recalculated_or b (some b') = b'

unfoldable pub create : Service → ℕ → BudgetParams → Exec BudgetModel
unfolding with_params
create svc user_id params = do
  start_date ← lift (parsed_or Error.invalid_start_date (parse_date svc params.start_date))
  end_date ← lift (parsed_or Error.invalid_end_date (parse_date svc params.end_date))
  currency ← no_rows_as Error.invalid_currency (Lookups.get_currency params.currency_id)
  created ← Budgets.create (with_params svc params start_date end_date (blank user_id))
  let budget : BudgetModel = record { row = created; currency = some currency }
  done ← try (recalculate_budget svc.convert_amount user_id budget)
  pure (recalculated_or budget done)

-- The budget of an id, which must be the user's.
unfoldable pub own_budget : ℕ → ℕ → Exec BudgetModel
own_budget user_id i = do
  existing ← no_rows_as Error.budget_not_found (Budgets.get_by_id i)
  raise_if (not (existing.row.user_id == user_id)) Error.access_denied
  pure existing

unfoldable pub update : Service → ℕ → ℕ → BudgetParams → Exec BudgetModel
unfolding own_budget with_params
update svc user_id i params = do
  start_date ← lift (parsed_or Error.invalid_start_date (parse_date svc params.start_date))
  end_date ← lift (parsed_or Error.invalid_end_date (parse_date svc params.end_date))
  existing ← own_budget user_id i
  currency ← no_rows_as Error.invalid_currency (Lookups.get_currency params.currency_id)
  let row : Budget = with_params svc params start_date end_date existing.row
  Budgets.update row
  let budget : BudgetModel = record { row = row; currency = some currency }
  done ← try (recalculate_budget svc.convert_amount user_id budget)
  pure (recalculated_or budget done)

unfoldable pub delete : ℕ → ℕ → Exec (Unit {0})
unfolding own_budget
delete user_id i = do own_budget user_id i; Budgets.delete i

unfoldable pub archive : ℕ → ℕ → Exec (Unit {0})
unfolding own_budget
archive user_id i = do own_budget user_id i; Budgets.archive i

unfoldable pub get_by_user_id : Service → ℕ → Include → Exec (List BudgetModel)
get_by_user_id svc user_id which = Budgets.get_by_user_id svc.ties user_id which
