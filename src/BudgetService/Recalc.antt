-- ===== src/BudgetService/Recalc.antt =====
-- recalculateBudget and RecalculateCollectedAmounts of backend/internal/services/budgets/service.go.
pub mod Counted
pub mod Sums
use orgfin_diploma.BudgetService.Csv.{parse_category_ids}
use orgfin_diploma.Repositories.Budgets.{BudgetTransactionRow, Include}
use orgfin_diploma.Models.{Currency, BudgetModel}
use orgfin_diploma.BudgetService.{CurrencyConverter, Service}
use orgfin_diploma.Exec.{◌>>=◌, Exec, Result, err, lift, pure, Error, ok, ◌>>◌, try, raise_if}
use orgfin_diploma.Repositories.Budgets
use orgfin_diploma.Prelude.{
  ℕ, Option, List, String, suc, some, ℤ, none, if◌then◌else◌, pos, same_text, ◌∷◌, [], ltb, ◌+ℤ◌,
}

-- A budget without a currency, or whose currency has an empty code, has no code.
abbrev pub code_or_error : Option Currency → Result String
code_or_error none = err Error.no_currency_code
code_or_error (some c) = if same_text c.code "" then err Error.no_currency_code else ok c.code

unfoldable pub sum_converted : CurrencyConverter → String → List BudgetTransactionRow → ℤ → Exec ℤ
unfolding ◌>>=◌
sum_converted convert code [] total = pure total
sum_converted convert code (row ∷ rows) total = do
  converted ← convert row.amount row.currency_code code row.date_time
  sum_converted convert code rows (total +ℤ converted)

-- The answer is the budget with its new amount, which the source writes into the struct.
unfoldable pub recalculate_budget : CurrencyConverter → ℕ → BudgetModel → Exec BudgetModel
unfolding sum_converted
recalculate_budget convert user_id budget = do
  code ← lift (code_or_error budget.currency)
  rows ←
      Budgets.get_expense_transactions_for_budget user_id budget.row.start_date budget.row.end_date
        (parse_category_ids budget.row.included_categories)
  total ← sum_converted convert code rows (pos 0)
  Budgets.update_collected_amount budget.row.id total
  pure (record budget { row = record budget.row { collected_amount = total } })

-- The loop over budgets: an error of one is kept, and the rest go on. The answer is the number of
-- errors.
abbrev pub count_failure : Option BudgetModel → ℕ → ℕ
count_failure none n = suc n
count_failure (some b) n = n

unfoldable pub recalculate_each : CurrencyConverter → ℕ → List BudgetModel → Exec ℕ
unfolding recalculate_budget
recalculate_each convert user_id [] = pure 0
recalculate_each convert user_id (b ∷ bs) = do
  done ← try (recalculate_budget convert user_id b)
  failures ← recalculate_each convert user_id bs
  pure (count_failure done failures)

unfoldable pub recalculate_collected_amounts : Service → ℕ → Exec (Unit {0})
unfolding recalculate_each
recalculate_collected_amounts svc user_id = do
  budgets ← Budgets.get_by_user_id svc.ties user_id Include.active
  failures ← recalculate_each svc.convert_amount user_id budgets
  raise_if (ltb 0 failures) Error.recalculation_failed
