-- ===== src/BudgetService/Editing/Rejects.antt =====
-- The errors of Create, Update, Delete and Archive of
-- backend/internal/services/budgets/service.go.
use orgfin_diploma.Models.{Db}
use orgfin_diploma.BudgetService.{Service, BudgetParams}
use orgfin_diploma.Exec.{no_rows_as, Error, Faults, err}
use orgfin_diploma.BudgetService.Editing.{update, create, own_budget}
use orgfin_diploma.Exec.Rules.{read_only, IsReadOnly, IsReadOnly-lift}
use orgfin_diploma.Exec.Failing.{RejectsEarly-checked, RejectsEarly-bind, fails_on_fault}
use orgfin_diploma.Repositories.Budgets
use orgfin_diploma.Repositories.Lookups
use orgfin_diploma.Prelude.{ℕ, ◌≡◌, ◌≢◌}

pub IsReadOnly-own_budget : (u i : ℕ) → IsReadOnly (own_budget u i)
unfolding own_budget Budgets.get_by_id
IsReadOnly-own_budget u i = search read_only

pub IsReadOnly-get_currency :
    (i : ℕ) → IsReadOnly (no_rows_as Error.invalid_currency (Lookups.get_currency i))
unfolding Lookups.get_currency
IsReadOnly-get_currency i = search read_only

-- An error of Create other than one of the database leaves the database as it was, whatever calls of
-- the database fail.
pub create-rejects :
    (svc : Service) (u : ℕ) (p : BudgetParams) (fs : Faults) (s : Db) (e : Error)
    → (create svc u p fs s).0 ≡ err e
    → e ≢ Error.db_failure
    → (create svc u p fs s).2 ≡ s
unfolding create Budgets.create
create-rejects svc u p =
    (RejectsEarly-checked _ _ (IsReadOnly-lift _) (λ start.
      RejectsEarly-checked _ _ (IsReadOnly-lift _) (λ end.
        RejectsEarly-bind _ _ (IsReadOnly-get_currency p.currency_id)
          (λ currency. search fails_on_fault)))).at

-- The same for Update, with the check of ownership after the parsing of dates.
pub update-rejects :
    (svc : Service) (u i : ℕ) (p : BudgetParams) (fs : Faults) (s : Db) (e : Error)
    → (update svc u i p fs s).0 ≡ err e
    → e ≢ Error.db_failure
    → (update svc u i p fs s).2 ≡ s
unfolding update Budgets.update
update-rejects svc u i p =
    (RejectsEarly-checked _ _ (IsReadOnly-lift _) (λ start.
      RejectsEarly-checked _ _ (IsReadOnly-lift _) (λ end.
        RejectsEarly-checked _ _ (IsReadOnly-own_budget u i) (λ existing.
          RejectsEarly-bind _ _ (IsReadOnly-get_currency p.currency_id)
            (λ currency. search fails_on_fault))))).at
