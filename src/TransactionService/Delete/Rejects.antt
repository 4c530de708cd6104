-- ===== src/TransactionService/Delete/Rejects.antt =====
-- DeleteTransaction checks everything before it writes.
use orgfin_diploma.Prelude.{ℕ, ◌≡◌, ◌≢◌, Option, none, some}
use orgfin_diploma.Models.{Db}
use orgfin_diploma.Exec.{Error, err, Faults}
use orgfin_diploma.Exec.Rules.{IsReadOnly}
use orgfin_diploma.Exec.Failing.{FailsOnFault, RejectsEarly-bind, RejectsEarly-checked}
use orgfin_diploma.Repositories.Transactions
use orgfin_diploma.TransactionService.{Service}
use orgfin_diploma.TransactionService.Checks.{checks, best_effort, IsReadOnly-active_user}
use orgfin_diploma.TransactionService.Delete.{
  own_transaction, linked_account_id, link_of, delete_linked, delete_transaction,
}

pub IsReadOnly-own_transaction : (u t : ℕ) → IsReadOnly (own_transaction u t)
unfolding own_transaction Transactions.get_by_id
IsReadOnly-own_transaction u t = search checks

IsReadOnly-linked_account_id : (l : Option ℕ) → IsReadOnly (linked_account_id l)
unfolding linked_account_id Transactions.get_by_id
IsReadOnly-linked_account_id none = search checks
IsReadOnly-linked_account_id (some l) = search checks

FailsOnFault-delete_linked : (l : Option ℕ) → FailsOnFault (delete_linked l)
unfolding delete_linked
FailsOnFault-delete_linked none = search best_effort
FailsOnFault-delete_linked (some l) = search best_effort

-- Whatever calls of the database fail: if DeleteTransaction answers with an error that is not the
-- database's own, then the database is as it was before.
pub delete_transaction-rejects :
    (svc : Service) (t u : ℕ) (fs : Faults) (s : Db) (e : Error)
    → (delete_transaction svc t u fs s).0 ≡ err e
    → e ≢ Error.db_failure
    → (delete_transaction svc t u fs s).2 ≡ s
unfolding delete_transaction Transactions.delete
delete_transaction-rejects svc t u =
    (RejectsEarly-checked _ _ (IsReadOnly-active_user u) (λ _.
      RejectsEarly-checked _ _ (IsReadOnly-own_transaction u t) (λ tx.
        RejectsEarly-bind _ _ (IsReadOnly-linked_account_id (link_of tx))
          (λ l. search (best_effort, FailsOnFault-delete_linked) depth 12)))).at
