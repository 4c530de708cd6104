-- ===== src/Examples/Money.antt =====
-- The results on accounts and on the reconcile command, each at a concrete database.
use orgfin_diploma.TransactionService.Recalc.{recalculate_balances}
use orgfin_diploma.AccountService.Removal.{delete_account-removes}
use orgfin_diploma.Reconcile.Runs.{run-idempotent}
use orgfin_diploma.AccountService.Editing.{update_account-unsettles, update_account-IsSettled}
use orgfin_diploma.Reconcile.Settles.{HasBalance, divergence_of}
use orgfin_diploma.Reconcile.{Options, Divergence, run, load_accounts, sort_by_id, insert_by_id}
use orgfin_diploma.TransactionService.Recalc.Settled.{IsSettled, implied_balance}
use orgfin_diploma.Repositories.Accounts.Lookup.{set_balance}
use orgfin_diploma.AccountService.Opening.{create_account-recalculates}
use orgfin_diploma.Exec.{ok, Error, ◌>>=◌, err}
use orgfin_diploma.TransactionService.{active_user}
use orgfin_diploma.Repositories.Transactions.{for_recalc}
use orgfin_diploma.AccountService.Adjust.{MayChange, IsPast, adjustment, adjust_balance-IsSettled}
use orgfin_diploma.Models.{Db, Account}
use orgfin_diploma.AccountService.{
  adjust_balance, create_account, AccountInput, UpdateInput, held_account, update_account,
  edited_row, check_kind, delete_account,
}
use orgfin_diploma.Examples.{
  book, account, user, cash, savings, cash_found, savings_found, cash_implied, savings_implied,
  unique,
}
use orgfin_diploma.Repositories.Users
use orgfin_diploma.Repositories.Accounts
use orgfin_diploma.Repositories.Transactions
use orgfin_diploma.Repositories.Lookups
use orgfin_diploma.Repositories.Accounts.Sum as Sum
use orgfin_diploma.Prelude.{◌≡◌, refl, pos, none, some, true, false, [], ◌∷◌, arith, ◌-ℤ◌, ℤ, All}

cash-MayChange : MayChange 1 1 book cash
unfolding Users.find
cash-MayChange = record { user = user; known = refl; active = refl; found = cash_found; own = refl }

cash-IsPast : All (IsPast 100 book) (for_recalc 1 book.transactions)
unfolding for_recalc Transactions.sort Transactions.insert_sorted Transactions.ordered
cash-IsPast = ground arith

adjust_balance-IsSettled_example :
    let (r, _, s') = adjust_balance 100 1 (pos 33) none 1 [] book in
    (r ≡ ok (adjustment 100 1 1 (pos 33) none cash book))
    × (Accounts.find 1 s'.accounts ≡ some (set_balance (pos 33) cash))
    × IsSettled 1 s'
adjust_balance-IsSettled_example =
    adjust_balance-IsSettled 100 1 1 (pos 33) (pos 20) none cash book cash-MayChange (ground arith)
      cash_implied cash-IsPast

unchanged_run : (adjust_balance 100 1 (pos 20) none 1 [] book).0 ≡ err Error.balance_unchanged
unfolding adjust_balance active_user held_account Users.get_by_id Users.find Accounts.get_by_id
    Accounts.find ◌-ℤ◌ ◌>>=◌
unchanged_run = refl

-- The database with a currency and an account type.
abbrev kinds : Db
kinds = record book { currencies = record { id = 1; code = "EUR" } ∷ []; account_types = 1 ∷ [] }

abbrev opening : AccountInput
opening = record {
  name = "new";
  currency_id = 1;
  account_type_id = 1;
  initial_balance = pos 8;
  balance = pos 5;
  credit_limit = pos 0;
  is_hidden = false;
  show_in_reports = true;
  opening_date = none;
  comment = "";
}

abbrev edit : ℤ → UpdateInput
edit initial = record {
  name = "renamed";
  currency_id = 1;
  account_type_id = 1;
  initial_balance = initial;
  credit_limit = pos 0;
  is_hidden = false;
  show_in_reports = true;
  opening_date = 0;
  comment = "";
}

user_found : Users.find 1 kinds.users ≡ some user
unfolding Users.find
user_found = refl

create_account-recalculates_example :
    let (r, _, s1) = create_account 100 1 opening [] kinds in
    let (r', _, s2) = recalculate_balances 3 [] s1 in
    ((acc : Account) × (r ≡ ok acc)
      × (acc.user_id ≡ 1)
      × (acc.balance ≡ pos 5)
      × (Accounts.find 3 s1.accounts ≡ some acc)
      × (r' ≡ ok tt)
      × (Accounts.find 3 s2.accounts ≡ some (record acc { balance = pos 8 })))
    × IsSettled 3 s2
    × IsSettled 2 s1
    × IsSettled 2 s2
create_account-recalculates_example =
    create_account-recalculates 100 1 opening kinds 2 user_found refl
      (record { found = record { id = 1; code = "EUR" }; currency = refl; account_type = refl })
      (ground arith) unique (omega arith) (savings, savings_found, savings_implied)

savings-MayChange : MayChange 1 2 kinds savings
unfolding Users.find
savings-MayChange = record {
  user = user;
  known = refl;
  active = refl;
  found = savings_found;
  own = refl;
}

savings_regular : All (λ t. t.is_adjustment ≡ false) (for_recalc 2 kinds.transactions)
unfolding for_recalc Transactions.sort Transactions.insert_sorted
savings_regular = ground arith

update_account-IsSettled_example :
    let (r, _, s') = update_account 2 1 (edit (pos 5)) [] kinds in
    (r ≡ ok (edited_row (edit (pos 5)) savings)) × IsSettled 2 s'
update_account-IsSettled_example =
    update_account-IsSettled 2 1 (edit (pos 5)) kinds savings-MayChange
      (record { found = record { id = 1; code = "EUR" }; currency = refl; account_type = refl })
      refl savings_implied

update_account-unsettles_example :
    let (r, _, s') = update_account 2 1 (edit (pos 6)) [] kinds in
    (r ≡ ok (edited_row (edit (pos 6)) savings))
    × (Accounts.find 2 s'.accounts ≡ some (edited_row (edit (pos 6)) savings))
    × ((edited_row (edit (pos 6)) savings).balance ≡ pos 15)
    × ¬ IsSettled 2 s'
update_account-unsettles_example =
    update_account-unsettles 2 1 (edit (pos 6)) kinds savings-MayChange
      (record { found = record { id = 1; code = "EUR" }; currency = refl; account_type = refl })
      (ground arith) savings_regular savings_implied

no_currency_run : (update_account 2 1 (edit (pos 6)) [] book).0 ≡ err Error.invalid_currency
unfolding update_account active_user held_account check_kind Users.get_by_id Users.find
    Accounts.get_by_id Accounts.find Lookups.get_currency ◌>>=◌
no_currency_run = refl

-- Account 1 has 5 more than its rows imply.
abbrev drifted : Account
drifted = account 1 (pos 0) (pos 25)

abbrev drifted_book : Db
drifted_book = record book { accounts = drifted ∷ savings ∷ [] }

abbrev all_accounts : Options
all_accounts = record { dry_run = false; only_user = 0; only_account = 0 }

drifted_loads :
    load_accounts all_accounts [] drifted_book ≡ (ok (drifted ∷ savings ∷ []), [], drifted_book)
unfolding load_accounts sort_by_id insert_by_id ◌>>=◌
drifted_loads = refl

drifted_unique : Sum.HasUniqueIds (drifted ∷ savings ∷ [])
drifted_unique = ground arith

drifted_balances : All (HasBalance drifted_book) (drifted ∷ savings ∷ [])
drifted_balances = ((pos 20, cash_implied), ((pos 15, savings_implied), tt))

drifted-IsPast : All (IsPast 100 drifted_book) drifted_book.transactions
drifted-IsPast = ground arith

run-idempotent_example :
    let (_, _, s') = run (λ now. "2026-01-01") all_accounts 100 [] drifted_book in
    (s'.accounts ≡ drifted ∷ savings ∷ [])
    × All (λ a. implied_balance a.id a s' ≡ ok a.balance) (drifted ∷ savings ∷ [])
    × (run (λ now. "2026-01-01") all_accounts 100 [] s' ≡ (ok [], [], s'))
run-idempotent_example =
    run-idempotent (λ now. "2026-01-01") all_accounts 100 drifted_book (drifted ∷ savings ∷ []) refl
      drifted_loads drifted_unique drifted_balances drifted-IsPast

abbrev divergence : Divergence
divergence = divergence_of drifted (pos 20)

delete_account-removes_example :
    let (r, _, s') = delete_account 1 1 [] book in
    (r ≡ ok tt)
    × (Accounts.find 1 s'.accounts ≡ none)
    × (Accounts.find 2 s'.accounts ≡ Accounts.find 2 book.accounts)
    × (s'.transactions ≡ book.transactions)
delete_account-removes_example = delete_account-removes 1 1 book cash-MayChange 2 (omega arith)
