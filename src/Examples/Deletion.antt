-- ===== src/Examples/Deletion.antt =====
-- The results on DeleteTransaction and on rejected updates, each at a concrete database.
use orgfin_diploma.Examples.{
  sent, cash, savings, book, svc, spend, unique, savings_found, cash_found, sent-MayDelete,
  got_found,
}
use orgfin_diploma.TransactionService.Delete.Transfer.{delete_transaction-transfer}
use orgfin_diploma.Exec.{ok, Error, ◌>>=◌, err}
use orgfin_diploma.TransactionService.Update.Rejects.{update_transaction-rejects}
use orgfin_diploma.TransactionService.Recalc.Settled.{implied_balance, IsSettled}
use orgfin_diploma.TransactionService.Update.{update_transaction, check_update}
use orgfin_diploma.TransactionService.Delete.{delete_transaction, own_transaction}
use orgfin_diploma.TransactionService.Delete.Settled.{deleted_db}
use orgfin_diploma.TransactionService.Recalc.{recalculate_from_transactions, next_balance}
use orgfin_diploma.Repositories.Users
use orgfin_diploma.Repositories.Accounts
use orgfin_diploma.Repositories.Transactions
use orgfin_diploma.Repositories.Transactions.{for_recalc}
use orgfin_diploma.Prelude.{◌≡◌, refl, none, [], arith, pos, ◌+ℤ◌, ◌-ℤ◌}
use orgfin_diploma.TransactionService.{active_user, own_account}

unknown_run :
    (update_transaction (λ l. l) (λ l. l) svc 0 1 (spend 40) 9 [] book).0
    ≡ err Error.transaction_not_found
unfolding update_transaction check_update active_user own_account Users.get_by_id Users.find
    Accounts.get_by_id Accounts.find Transactions.find Transactions.get_by_id ◌>>=◌
unknown_run = refl

update_transaction-rejects_example :
    (update_transaction (λ l. l) (λ l. l) svc 0 1 (spend 40) 9 [] book).2 ≡ book
update_transaction-rejects_example =
    update_transaction-rejects (λ l. l) (λ l. l) svc 0 1 (spend 40) 9 [] book
      Error.transaction_not_found unknown_run (ground arith)

gone_run : (delete_transaction svc 9 1 [] book).0 ≡ err Error.transaction_not_found
unfolding delete_transaction own_transaction active_user Users.get_by_id Users.find
    Transactions.find Transactions.get_by_id ◌>>=◌
gone_run = refl

left_implied : implied_balance 1 cash (deleted_db 2 book) ≡ ok (pos 40)
unfolding for_recalc Transactions.sort Transactions.insert_sorted Transactions.ordered
    Transactions.change recalculate_from_transactions next_balance ◌+ℤ◌ ◌-ℤ◌
left_implied = refl

cash_back : implied_balance 1 cash (deleted_db 4 (deleted_db 3 book)) ≡ ok (pos 30)
unfolding for_recalc Transactions.sort Transactions.insert_sorted Transactions.ordered
    Transactions.change recalculate_from_transactions next_balance ◌+ℤ◌ ◌-ℤ◌
cash_back = refl

savings_back : implied_balance 2 savings (deleted_db 4 (deleted_db 3 book)) ≡ ok (pos 5)
unfolding for_recalc Transactions.sort Transactions.insert_sorted Transactions.ordered
    Transactions.change recalculate_from_transactions next_balance ◌+ℤ◌ ◌-ℤ◌
savings_back = refl

delete_transaction-transfer_example :
    let (r, _, s') = delete_transaction svc 3 1 [] book in
    (r ≡ ok sent)
    × (Transactions.find 3 s'.transactions ≡ none)
    × (Transactions.find 4 s'.transactions ≡ none)
    × IsSettled 1 s'
    × IsSettled 2 s'
delete_transaction-transfer_example =
    delete_transaction-transfer svc 3 1 book sent-MayDelete cash_found unique refl refl got_found
      (omega arith) savings_found (omega arith) cash_back savings_back
