-- ===== src/AccountService.antt =====
-- backend/internal/services/accounts/service.go. The response that toAccount or toTransaction
-- builds from a row is the row itself; the balance in the base currency, which ConvertAmount
-- computes for the response only, is left out.
pub mod Rejects
pub mod Adjust
pub mod Opening
pub mod Removal
pub mod Editing
use orgfin_diploma.Prelude.{
  ℕ, ℤ, pos, ◌-ℤ◌, abs, ltb_ℤ, eqb_ℤ, Bool, true, false, not, Option, none, some, List, String,
  ◌==◌,
}
use orgfin_diploma.Models.{Time, Account, Transaction}
use orgfin_diploma.Exec.{Error, Exec, pure, ◌>>=◌, ◌>>◌, raise_if, no_rows_as}
use orgfin_diploma.Repositories.Accounts
use orgfin_diploma.Repositories.Transactions
use orgfin_diploma.Repositories.Lookups
use orgfin_diploma.TransactionService.{active_user, value_or}

-- CreateAccountInput
pub record AccountInput : Type 0 where
  pub name : String
  pub currency_id : ℕ
  pub account_type_id : ℕ
  pub initial_balance : ℤ
  pub balance : ℤ
  pub credit_limit : ℤ
  pub is_hidden : Bool
  pub show_in_reports : Bool
  pub opening_date : Option Time
  pub comment : String

-- UpdateAccountInput
pub record UpdateInput : Type 0 where
  pub name : String
  pub currency_id : ℕ
  pub account_type_id : ℕ
  pub initial_balance : ℤ
  pub credit_limit : ℤ
  pub is_hidden : Bool
  pub show_in_reports : Bool
  pub opening_date : Time
  pub comment : String

-- The currency and the account type must exist.
unfoldable pub check_kind : ℕ → ℕ → Exec (Unit {0})
check_kind currency_id account_type_id = do
  no_rows_as Error.invalid_currency (Lookups.get_currency currency_id)
  no_rows_as Error.invalid_account_type (Lookups.get_account_type account_type_id)
  pure tt

-- GetByID and the ownership check of an account.
unfoldable pub held_account : ℕ → ℕ → Exec Account
held_account user_id account_id = do
  account ← no_rows_as Error.account_not_found (Accounts.get_by_id account_id)
  raise_if (not (account.user_id == user_id)) Error.access_denied
  pure account

unfoldable pub opened_row : Time → ℕ → AccountInput → Account
opened_row now user_id i = record {
  id = 0;
  user_id = user_id;
  name = i.name;
  account_type_id = i.account_type_id;
  currency_id = i.currency_id;
  balance = i.balance;
  initial_balance = i.initial_balance;
  comment = some i.comment;
  show_in_reports = i.show_in_reports;
  is_archived = false;
  archived_at = none;
  opening_date = some (value_or now i.opening_date);
  is_hidden = i.is_hidden;
  credit_limit = some i.credit_limit;
  is_deleted = false;
}

unfoldable pub create_account : Time → ℕ → AccountInput → Exec Account
unfolding check_kind opened_row
create_account now user_id i = do
  active_user user_id
  check_kind i.currency_id i.account_type_id
  Accounts.create (opened_row now user_id i)

unfoldable pub get_account_details : ℕ → ℕ → Exec Account
unfolding held_account
get_account_details account_id user_id = do active_user user_id; held_account user_id account_id

-- The row with the fields of the input; its balance stays.
unfoldable pub edited_row : UpdateInput → Account → Account
edited_row i account = record account {
  name = i.name;
  currency_id = i.currency_id;
  account_type_id = i.account_type_id;
  initial_balance = i.initial_balance;
  credit_limit = some i.credit_limit;
  is_hidden = i.is_hidden;
  show_in_reports = i.show_in_reports;
  opening_date = some i.opening_date;
  comment = some i.comment;
}

unfoldable pub update_account : ℕ → ℕ → UpdateInput → Exec Account
unfolding held_account check_kind edited_row
update_account account_id user_id i = do
  active_user user_id
  account ← held_account user_id account_id
  check_kind i.currency_id i.account_type_id
  Accounts.update (edited_row i account)
  pure (edited_row i account)

unfoldable pub delete_account : ℕ → ℕ → Exec (Unit {0})
unfolding held_account
delete_account account_id user_id = do
  active_user user_id
  held_account user_id account_id
  Accounts.soft_delete account_id

unfoldable pub set_archive_status : Time → ℕ → Bool → ℕ → Exec (Unit {0})
unfolding held_account
set_archive_status now account_id is_archived user_id = do
  active_user user_id
  held_account user_id account_id
  Accounts.set_archive_status account_id is_archived now

-- The adjustment that moves the balance `old` to the balance `new`.
unfoldable pub adjustment_row : Time → ℕ → ℕ → ℤ → ℤ → Option String → Transaction
adjustment_row now user_id account_id old new notes = record {
  id = 0;
  user_id = user_id;
  account_id = account_id;
  amount = abs (new -ℤ old);
  new_balance = some new;
  category_id = none;
  label = some "Balance adjustment";
  is_income = ltb_ℤ (pos 0) (new -ℤ old);
  is_transfer = false;
  linked_transaction_id = none;
  notes = notes;
  date_time = some now;
  is_deleted = false;
  is_adjustment = true;
  exclude_from_reports = true;
}

unfoldable pub adjust_balance : Time → ℕ → ℤ → Option String → ℕ → Exec Transaction
unfolding held_account adjustment_row
adjust_balance now account_id new_balance notes user_id = do
  active_user user_id
  account ← held_account user_id account_id
  raise_if (eqb_ℤ (new_balance -ℤ account.balance) (pos 0)) Error.balance_unchanged
  created ←
      Transactions.create (adjustment_row now user_id account_id account.balance new_balance notes)
  Accounts.update_balance account_id new_balance
  pure created
