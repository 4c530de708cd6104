-- ===== src/Examples.antt =====
-- One concrete database, and each result at it. User 1 has two accounts; account 1 has an
-- adjustment to 50, an expense of 20 and a transfer of 10 to account 2.
pub mod Money
pub mod Edits
pub mod Creation
pub mod Deletion
pub mod Plans
mod Subscriptions
mod Webhooks
mod Trials
mod Planned
mod Rates
mod Budgets
mod Categories
mod Tasks
use orgfin_diploma.TransactionService.Delete.Transfer.{delete_transaction-transfer}
use orgfin_diploma.TransactionService.Create.Settled.{
  source_stored, create_transaction-IsSettled, create_transaction-backdated,
}
use orgfin_diploma.TransactionService.Create.Rejects.{create_transaction-rejects}
use orgfin_diploma.TransactionService.Create.Transfer.{
  create_transaction-conserves, create_transaction-links, create_transaction-transfer,
}
use orgfin_diploma.Exec.{ok, Error, ◌>>=◌, err}
use orgfin_diploma.TransactionService.Update.Rejects.{update_transaction-rejects}
use orgfin_diploma.TransactionService.Delete.Rejects.{delete_transaction-rejects}
use orgfin_diploma.TransactionService.Recalc.Insert.{PrecedesAdjustment, StandsBefore}
use orgfin_diploma.TransactionService.Recalc.Settled.{
  implied_balance, IsSettled, recalculate_balances-keeps_other, recalculate_balances-IsSettled,
}
use orgfin_diploma.TransactionService.Update.{update_transaction, check_update}
use orgfin_diploma.TransactionService.Create.Balance.{IsAllowed, IsTransferTo, linked_source}
use orgfin_diploma.TransactionService.Create.{create_transaction, source_row, check_input}
use orgfin_diploma.TransactionService.Delete.{delete_transaction, own_transaction}
use orgfin_diploma.TransactionService.Delete.Settled.{
  MayDelete, delete_transaction-single, deleted_db,
}
use orgfin_diploma.TransactionService.Recalc.{
  recalculate_from_transactions, next_balance, recalculate_balances, recalculate_rows,
}
use orgfin_diploma.Repositories.Users
use orgfin_diploma.Repositories.Accounts
use orgfin_diploma.Repositories.Accounts.Lookup.{set_balance}
use orgfin_diploma.Repositories.Transactions
use orgfin_diploma.Repositories.Transactions.{for_recalc}
use orgfin_diploma.Repositories.Accounts.Sum as Sum
use orgfin_diploma.Prelude.{
  ◌≡◌, refl, none, some, true, false, [], ◌∷◌, arith, pos, ℤ, ℕ, Option, ◌+ℤ◌, ◌-ℤ◌, All, inl,
}
use orgfin_diploma.TransactionService.Recalc.Rows.{HasUniqueIds, rows_result}
use orgfin_diploma.Models.{Time, User, Account, Transaction, Db, empty_db}
use orgfin_diploma.TransactionService.{Input, Service, active_user, own_account}

abbrev user : User
user = record { id = 1; email = "ada"; is_active = true; is_deleted = false }

abbrev account : ℕ → ℤ → ℤ → Account
account i initial balance = record {
  id = i;
  user_id = 1;
  name = "cash";
  account_type_id = 1;
  currency_id = 1;
  balance = balance;
  initial_balance = initial;
  comment = none;
  show_in_reports = true;
  is_archived = false;
  archived_at = none;
  opening_date = none;
  is_hidden = false;
  credit_limit = none;
  is_deleted = false;
}

abbrev row : ℕ → ℕ → ℤ → Time → Option ℕ → Transaction
row i a amount date link = record {
  id = i;
  user_id = 1;
  account_id = a;
  amount = amount;
  new_balance = none;
  category_id = none;
  label = none;
  is_income = false;
  is_transfer = false;
  linked_transaction_id = link;
  notes = none;
  date_time = some date;
  is_deleted = false;
  is_adjustment = false;
  exclude_from_reports = false;
}

abbrev adjustment : Transaction
adjustment = record (row 1 1 (pos 50) 10 none) { is_adjustment = true; new_balance = some (pos 50) }

abbrev expense : Transaction
expense = row 2 1 (pos 20) 20 none

abbrev sent : Transaction
sent = record (row 3 1 (pos 10) 30 (some 4)) { is_transfer = true }

abbrev got : Transaction
got = record (row 4 2 (pos 10) 30 (some 3)) { is_transfer = true; is_income = true }

abbrev cash : Account
cash = account 1 (pos 0) (pos 20)

abbrev savings : Account
savings = account 2 (pos 5) (pos 15)

abbrev book : Db
book = record empty_db {
  users = user ∷ [];
  accounts = cash ∷ savings ∷ [];
  transactions = adjustment ∷ expense ∷ sent ∷ got ∷ [];
  next_account_id = 3;
  next_transaction_id = 5;
}

abbrev svc : Service
svc = record { has_enqueuer = true }

abbrev spend : Time → Input
spend date = record {
  account_id = 1;
  target_account_id = none;
  category_id = none;
  amount = pos 7;
  target_amount = none;
  label = "tea";
  notes = none;
  date_time = some date;
  is_income = false;
  is_transfer = false;
  is_adjustment = false;
  exclude_from_reports = false;
  is_template = false;
}

abbrev send : Input
send = record (spend 40) { target_account_id = some 2; is_transfer = true }

pub unique : HasUniqueIds book.transactions
unique = ground arith

unique_accounts : Sum.HasUniqueIds book.accounts
unique_accounts = ground arith

cash_implied : implied_balance 1 cash book ≡ ok (pos 20)
unfolding for_recalc Transactions.sort Transactions.insert_sorted Transactions.ordered
    recalculate_from_transactions next_balance ◌+ℤ◌ ◌-ℤ◌
cash_implied = refl

savings_implied : implied_balance 2 savings book ≡ ok (pos 15)
unfolding for_recalc Transactions.sort Transactions.insert_sorted Transactions.ordered
    recalculate_from_transactions next_balance ◌+ℤ◌ ◌-ℤ◌
savings_implied = refl

savings_found : Accounts.find 2 book.accounts ≡ some savings
unfolding Accounts.find
savings_found = refl

savings_IsSettled : IsSettled 2 book
savings_IsSettled = (savings, savings_found, savings_implied)

cash_found : Accounts.find 1 book.accounts ≡ some cash
unfolding Accounts.find
cash_found = refl

spend-IsAllowed : (date : Time) → IsAllowed 1 (spend date) book cash
unfolding Users.find
spend-IsAllowed date = record {
  user = user;
  known = refl;
  active = refl;
  found = cash_found;
  own = refl;
}

send-IsAllowed : IsAllowed 1 send book cash
unfolding Users.find
send-IsAllowed = record { user = user; known = refl; active = refl; found = cash_found; own = refl }

recalculate_balances-IsSettled_example :
    let (r, _, s') = recalculate_balances 1 [] book in
    (r ≡ ok tt) × (Accounts.find 1 s'.accounts ≡ some (set_balance (pos 20) cash)) × IsSettled 1 s'
recalculate_balances-IsSettled_example =
    recalculate_balances-IsSettled 1 (pos 20) cash book cash_found cash_implied unique

recalculate_balances-keeps_other_example : IsSettled 2 (recalculate_balances 1 [] book).2
recalculate_balances-keeps_other_example =
    recalculate_balances-keeps_other 1 (pos 20) cash book 2 cash_found cash_implied unique
      (omega arith) savings_IsSettled

rows_result_example :
    (recalculate_rows (pos 0) book.transactions [] book).0
    ≡ recalculate_from_transactions (pos 0) book.transactions
rows_result_example = rows_result (pos 0) book.transactions book

expense-MayDelete : MayDelete 1 2 book expense
unfolding Users.find Transactions.find
expense-MayDelete = record { user = user; known = refl; active = refl; row = refl; own = refl }

sent-MayDelete : MayDelete 1 3 book sent
unfolding Users.find Transactions.find
sent-MayDelete = record { user = user; known = refl; active = refl; row = refl; own = refl }

got_found : Transactions.find 4 book.transactions ≡ some got
unfolding Transactions.find
got_found = refl
