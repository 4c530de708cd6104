-- ===== src/Examples/Creation.antt =====
-- The results on CreateTransaction, each at a concrete database.
use orgfin_diploma.Examples.{
  cash, savings, book, svc, spend, send, unique_accounts, cash_implied, savings_found,
  spend-IsAllowed, send-IsAllowed,
}
use orgfin_diploma.TransactionService.Create.Settled.{
  source_stored, create_transaction-IsSettled, create_transaction-backdated,
}
use orgfin_diploma.TransactionService.Create.Rejects.{create_transaction-rejects}
use orgfin_diploma.TransactionService.Create.Transfer.{
  create_transaction-conserves, create_transaction-transfer,
}
use orgfin_diploma.Exec.{ok, Error, ◌>>=◌, err}
use orgfin_diploma.TransactionService.Recalc.Insert.{PrecedesAdjustment, StandsBefore}
use orgfin_diploma.TransactionService.Recalc.Settled.{implied_balance, IsSettled}
use orgfin_diploma.TransactionService.Create.Balance.{IsTransferTo, linked_source}
use orgfin_diploma.TransactionService.Create.{create_transaction, source_row, check_input}
use orgfin_diploma.Repositories.Users
use orgfin_diploma.Repositories.Accounts
use orgfin_diploma.Repositories.Accounts.Lookup.{set_balance}
use orgfin_diploma.Repositories.Transactions
use orgfin_diploma.Repositories.Transactions.{for_recalc}
use orgfin_diploma.Repositories.Accounts.Sum as Sum
use orgfin_diploma.Prelude.{◌≡◌, refl, some, [], arith, pos, ◌+ℤ◌, ◌-ℤ◌, All, inl}
use orgfin_diploma.TransactionService.{Input, active_user, own_account}

abbrev send_to : IsTransferTo 1 send book savings
send_to = record {
  transfer = refl;
  target_id = 2;
  names = refl;
  other = omega arith;
  found = savings_found;
  own = refl;
}

-- The row of an expense dated 40 stands behind all others, of one dated 5 before all others.
spend_last :
    All (StandsBefore (source_stored 1 (spend 40) 0 cash book)) (for_recalc 1 book.transactions)
unfolding for_recalc Transactions.sort Transactions.insert_sorted Transactions.ordered source_row
spend_last = ground arith

spend_first :
    PrecedesAdjustment (source_stored 1 (spend 5) 0 cash book) (for_recalc 1 book.transactions)
unfolding for_recalc Transactions.sort Transactions.insert_sorted Transactions.ordered source_row
spend_first = inl (refl, refl)

create_transaction-IsSettled_example :
    let (r, _, s') = create_transaction svc 0 1 (spend 40) [] book in
    (r ≡ ok (source_stored 1 (spend 40) 0 cash book)) × IsSettled 1 s'
create_transaction-IsSettled_example =
    create_transaction-IsSettled svc 0 1 (spend 40) book (spend-IsAllowed 40) refl cash_implied
      spend_last

create_transaction-backdated_example :
    let (r, _, s') = create_transaction svc 0 1 (spend 5) [] book in
    (r ≡ ok (source_stored 1 (spend 5) 0 cash book))
    × (implied_balance 1 cash s' ≡ ok (pos 20))
    × ¬ IsSettled 1 s'
create_transaction-backdated_example =
    create_transaction-backdated svc 0 1 (spend 5) book (spend-IsAllowed 5) refl refl (ground arith)
      cash_implied spend_first

create_transaction-transfer_example :
    let (r, _, s') = create_transaction svc 0 1 send [] book in
    (r ≡ ok (linked_source 1 send 0 cash book))
    × (Accounts.find 1 s'.accounts ≡ some (set_balance (pos 20 -ℤ pos 7) cash))
    × (Accounts.find 2 s'.accounts ≡ some (set_balance (pos 15 +ℤ pos 7) savings))
    × (Accounts.find 9 s'.accounts ≡ Accounts.find 9 book.accounts)
create_transaction-transfer_example =
    create_transaction-transfer svc 0 1 send book send-IsAllowed send_to refl refl 9 (omega arith)
      (omega arith)

create_transaction-conserves_example :
    Sum.balance_sum (create_transaction svc 0 1 send [] book).2.accounts
    ≡ Sum.balance_sum book.accounts
create_transaction-conserves_example =
    create_transaction-conserves svc 0 1 send book send-IsAllowed send_to refl refl refl
      unique_accounts

-- A transfer from account 1 to itself.
abbrev to_itself : Input
to_itself = record send { target_account_id = some 1 }

to_itself_run : (create_transaction svc 0 1 to_itself [] book).0 ≡ err Error.self_transfer
unfolding create_transaction check_input active_user own_account Users.get_by_id Users.find
    Accounts.get_by_id Accounts.find ◌>>=◌
to_itself_run = refl

create_transaction-rejects_example : (create_transaction svc 0 1 to_itself [] book).2 ≡ book
create_transaction-rejects_example =
    create_transaction-rejects svc 0 1 to_itself [] book Error.self_transfer to_itself_run
      (ground arith)
