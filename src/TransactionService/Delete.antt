-- ===== src/TransactionService/Delete.antt =====
-- DeleteTransaction of backend/internal/services/transactions/service.go.
pub mod Rejects
pub mod Rows
pub mod Settled
pub mod Transfer
use orgfin_diploma.Prelude.{ℕ, not, ◌&&◌, Option, none, some, ◌==◌, if◌then◌else◌}
use orgfin_diploma.Models.{Transaction}
use orgfin_diploma.Exec.{Error, Exec, pure, ◌>>=◌, ◌>>◌, raise_if, when, no_rows_as, attempt, try}
use orgfin_diploma.Repositories.Transactions
use orgfin_diploma.TransactionService.{Service, active_user, enqueue_budget_update}
use orgfin_diploma.TransactionService.Recalc.{recalculate_balances}

-- GetByID and the ownership check of a transaction.
unfoldable pub own_transaction : ℕ → ℕ → Exec Transaction
own_transaction user_id tx_id = do
  tx ← no_rows_as Error.transaction_not_found (Transactions.get_by_id tx_id)
  raise_if (not (tx.user_id == user_id)) Error.access_denied
  pure tx

-- The id of the linked row, if the transaction is a transfer.
abbrev pub link_of : Transaction → Option ℕ
link_of tx = if tx.is_transfer then tx.linked_transaction_id else none

abbrev pub account_or_zero : Option Transaction → ℕ
account_or_zero none = 0
account_or_zero (some t) = t.account_id

-- linkedAccountID, 0 if there is no linked row.
unfoldable pub linked_account_id : Option ℕ → Exec ℕ
linked_account_id none = pure 0
linked_account_id (some l) = do
  linked ← try (Transactions.get_by_id l)
  pure (account_or_zero linked)

unfoldable pub delete_linked : Option ℕ → Exec (Unit {0})
delete_linked none = pure tt
delete_linked (some l) = attempt (Transactions.delete l)

unfoldable pub delete_transaction : Service → ℕ → ℕ → Exec Transaction
unfolding own_transaction linked_account_id delete_linked
delete_transaction svc tx_id user_id = do
  active_user user_id
  tx ← own_transaction user_id tx_id
  linked_account ← linked_account_id (link_of tx)
  Transactions.delete tx_id
  delete_linked (link_of tx)
  attempt (recalculate_balances tx.account_id)
  when (tx.is_transfer && not (linked_account == 0)) (attempt (recalculate_balances linked_account))
  enqueue_budget_update svc user_id tx.account_id
  when (not (linked_account == 0)) (enqueue_budget_update svc user_id linked_account)
  pure tx
