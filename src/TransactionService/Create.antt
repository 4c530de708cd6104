-- ===== src/TransactionService/Create.antt =====
-- CreateTransaction of backend/internal/services/transactions/service.go.
pub mod Rejects
pub mod Balance
pub mod Settled
pub mod Transfer
use orgfin_diploma.Prelude.{ℕ, ℤ, ◌+ℤ◌, ◌-ℤ◌, true, false, Bool, Option, none, some, if◌then◌else◌}
use orgfin_diploma.Models.{Time, Account, Transaction}
use orgfin_diploma.Exec.{Error, Exec, pure, ◌>>=◌, ◌>>◌, raise_if, no_rows_ok, attempt}
use orgfin_diploma.Repositories.Accounts
use orgfin_diploma.Repositories.Transactions
use orgfin_diploma.Repositories.Lookups
use orgfin_diploma.TransactionService.{
  Service, Input, active_user, own_account, is_self_transfer, value_or, received, create_template,
  enqueue_budget_update,
}

-- The other account of a transfer, which must be the user's.
unfoldable pub target_account : ℕ → Bool → Option ℕ → Exec (Option Account)
target_account user_id true (some t) = do account ← own_account user_id t; pure (some account)
target_account user_id true none = pure none
target_account user_id false target = pure none

unfoldable pub check_category : Option ℕ → Exec (Unit {0})
check_category none = pure tt
check_category (some c) = no_rows_ok (Lookups.get_category c)

-- All that the method checks before it writes.
unfoldable pub check_input : ℕ → Input → Exec (Account × Option Account)
unfolding target_account check_category
check_input user_id i = do
  active_user user_id
  account ← own_account user_id i.account_id
  raise_if (is_self_transfer i) Error.self_transfer
  target ← target_account user_id i.is_transfer i.target_account_id
  check_category i.category_id
  pure (account, target)

-- The balance of the source account after the transaction.
unfoldable pub new_balance : Account → Input → ℤ
new_balance account i =
    if i.is_adjustment
    then i.amount
    else if i.is_income
    then account.balance +ℤ i.amount
    else account.balance -ℤ i.amount

unfoldable pub source_row : ℕ → Input → Time → ℤ → Transaction
source_row user_id i now balance = record {
  id = 0;
  user_id = user_id;
  account_id = i.account_id;
  amount = i.amount;
  new_balance = some balance;
  category_id = i.category_id;
  label = some i.label;
  is_income = i.is_income;
  is_transfer = i.is_transfer;
  linked_transaction_id = none;
  notes = i.notes;
  date_time = some (value_or now i.date_time);
  is_deleted = false;
  is_adjustment = i.is_adjustment;
  exclude_from_reports = i.exclude_from_reports;
}

-- The row of the other account, which was looked up by the id that the input names: always
-- income, never an adjustment.
unfoldable pub target_row : ℕ → Input → Time → Account → ℕ → Transaction
target_row user_id i now target source_id = record {
  id = 0;
  user_id = user_id;
  account_id = target.id;
  amount = received i;
  new_balance = some (target.balance +ℤ received i);
  category_id = i.category_id;
  label = some i.label;
  is_income = true;
  is_transfer = true;
  linked_transaction_id = some source_id;
  notes = i.notes;
  date_time = some (value_or now i.date_time);
  is_deleted = false;
  is_adjustment = false;
  exclude_from_reports = false;
}

unfoldable pub record_source : ℕ → Input → Time → Account → Exec Transaction
unfolding new_balance source_row
record_source user_id i now account = do
  created ← Transactions.create (source_row user_id i now (new_balance account i))
  Accounts.update_balance i.account_id (new_balance account i)
  pure created

-- The linked transaction of a transfer.
unfoldable pub record_target : ℕ → Input → Time → Transaction → Option Account → Exec Transaction
unfolding target_row
record_target user_id i now created none = pure created
record_target user_id i now created (some target) = do
  linked ← Transactions.create (target_row user_id i now target created.id)
  attempt (Transactions.update_linked_id created.id linked.id)
  Accounts.update_balance target.id (target.balance +ℤ received i)
  pure (record created { linked_transaction_id = some linked.id })

unfoldable pub create_transaction : Service → Time → ℕ → Input → Exec Transaction
unfolding check_input record_source record_target
create_transaction svc now user_id i = do
  (account, target) ← check_input user_id i
  source ← record_source user_id i now account
  created ← record_target user_id i now source target
  create_template user_id i
  enqueue_budget_update svc user_id i.account_id
  pure created
