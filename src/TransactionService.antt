-- ===== src/TransactionService.antt =====
-- backend/internal/services/transactions: the input (contract.go), the checks that every method
-- begins with, and the steps that several methods share (service.go). The clock is an argument,
-- `now`. The response that toTransaction builds from a row is the row itself.
pub mod Recalc
pub mod Create
pub mod Update
pub mod Delete
pub mod Templates
pub mod Checks
use orgfin_diploma.Prelude.{
  ℕ, ℤ, Bool, true, false, not, ◌&&◌, Option, none, some, List, [], ◌∷◌, ◌++◌, String, ◌==◌,
  if◌then◌else◌,
}
use orgfin_diploma.Models.{Time, User, Account, Template, BudgetTask}
use orgfin_diploma.Exec.{
  Error, Exec, pure, ◌>>=◌, ◌>>◌, continue, statement, raise_if, no_rows_as, attempt,
}
use orgfin_diploma.Repositories.Users
use orgfin_diploma.Repositories.Accounts
use orgfin_diploma.Repositories.Templates as TemplateRows

-- The optional dependency of the service: a nil enqueuer makes enqueuing a no-op.
pub record Service : Type 0 where
  pub has_enqueuer : Bool

-- CreateTransactionInput
pub record Input : Type 0 where
  pub account_id : ℕ
  pub target_account_id : Option ℕ
  pub category_id : Option ℕ
  pub amount : ℤ
  pub target_amount : Option ℤ
  pub label : String
  pub notes : Option String
  pub date_time : Option Time
  pub is_income : Bool
  pub is_transfer : Bool
  pub is_adjustment : Bool
  pub exclude_from_reports : Bool
  pub is_template : Bool

unfoldable pub active_user : ℕ → Exec User
active_user user_id = do
  user ← no_rows_as Error.invalid_user (Users.get_by_id user_id)
  raise_if (not user.is_active) Error.user_not_activated
  pure user

unfoldable pub own_account : ℕ → ℕ → Exec Account
own_account user_id account_id = do
  account ← no_rows_as Error.invalid_account (Accounts.get_by_id account_id)
  raise_if (not (account.user_id == user_id)) Error.access_denied
  pure account

abbrev pub is_some_of : ℕ → Option ℕ → Bool
is_some_of n none = false
is_some_of n (some m) = m == n

-- The self-transfer guard.
abbrev pub is_self_transfer : Input → Bool
is_self_transfer i = i.is_transfer && is_some_of i.account_id i.target_account_id

abbrev pub value_or {ℓ} : {A : Type ℓ} → A → Option A → A
value_or d none = d
value_or d (some a) = a

-- targetAmount: the amount that the other account receives.
abbrev pub received : Input → ℤ
received i = value_or i.amount i.target_amount

unfoldable pub create_template : ℕ → Input → Exec (Unit {0})
create_template user_id i =
    if i.is_template
    then attempt (
        TemplateRows.create (record {
          id = 0;
          user_id = user_id;
          category_id = i.category_id;
          target_account_id = if i.is_transfer then i.target_account_id else none;
          label = i.label;
        }))
    else pure tt

unfoldable pub enqueue_budget_update : Service → ℕ → ℕ → Exec (Unit {0})
enqueue_budget_update svc user_id account_id =
    if svc.has_enqueuer
    then attempt (
        statement λ s. record s {
          tasks = s.tasks ++ record { user_id = user_id; account_id = account_id } ∷ [];
        })
    else pure tt
