-- ===== src/TransactionService/Delete/Settled.antt =====
-- DeleteTransaction, run without a fault: the rows are gone, and the accounts are recalculated.
use orgfin_diploma.Repositories.Accounts.Lookup.{set_balance}
use orgfin_diploma.TransactionService.Create.Balance.{Leaves}
use orgfin_diploma.Repositories.Users
use orgfin_diploma.Prelude.{ℕ, ℤ, ◌≡◌, refl, none, some, true, false, [], arith, eq→==, Bool, ◌&&◌}
use orgfin_diploma.Models.{User, Account, Transaction, Db}
use orgfin_diploma.Exec.{ok, pure, ◌>>=◌, ◌>>◌, when, Exec}
use orgfin_diploma.Repositories.Transactions
use orgfin_diploma.Repositories.Accounts
use orgfin_diploma.TransactionService.{Service, enqueue_budget_update}
use orgfin_diploma.TransactionService.Checks.{active_run}
use orgfin_diploma.TransactionService.Recalc.Rows.{HasUniqueIds}
use orgfin_diploma.TransactionService.Recalc.Settled.{
  IsSettled, implied_balance, settled_db, recalculate_run, IsSettled-self, settled-Alike,
  settled_found, IsSettled-tables,
}
use orgfin_diploma.TransactionService.Delete.{
  own_transaction, link_of, linked_account_id, delete_linked, delete_transaction,
}
use orgfin_diploma.TransactionService.Delete.Rows.{
  set_deleted, change-HasUniqueIds, find-Alike, find-change_deleted,
}

-- The table after the soft delete of row `t`.
abbrev pub deleted_db : ℕ → Db → Db
deleted_db t s = record s { transactions = Transactions.change t set_deleted s.transactions }

-- The user and the transaction pass the checks.
pub record MayDelete (u t : ℕ) (s : Db) (tx : Transaction) : Type 0 where
  pub user : User
  pub known : Users.find u s.users ≡ some user
  pub active : user.is_active ≡ true
  pub row : Transactions.find t s.transactions ≡ some tx
  pub own : tx.user_id ≡ u

pub own_transaction_run :
    (u t : ℕ) (s : Db) (tx : Transaction)
    → Transactions.find t s.transactions ≡ some tx
    → tx.user_id ≡ u
    → own_transaction u t [] s ≡ (ok tx, [], s)
unfolding own_transaction Transactions.get_by_id ◌>>=◌
own_transaction_run u t s tx row own = rw (row, eq→== tx.user_id u own)

-- The tail of the method, which enqueues tasks, leaves the money alone.
pub enqueue_run :
    (svc : Service) (u a c : ℕ) (b : Bool) (tx : Transaction) (s : Db)
    → let (r, _, s') =
        (enqueue_budget_update svc u a >> (when b (enqueue_budget_update svc u c) >> pure tx)) []
          s in
      (r ≡ ok tx) × (s'.accounts ≡ s.accounts) × (s'.transactions ≡ s.transactions)
unfolding enqueue_budget_update ◌>>=◌
enqueue_run svc u a c b tx s = ground arith

single_tail_run :
    (svc : Service) (u a : ℕ) (b : Bool) (m : Exec (Unit {0})) (tx : Transaction) (s : Db)
    → let (r, _, s') =
        (when (b && false) m
            >> (enqueue_budget_update svc u a
                >> (when false (enqueue_budget_update svc u 0) >> pure tx)))
          [] s in
      (r ≡ ok tx) × (s'.accounts ≡ s.accounts) × (s'.transactions ≡ s.transactions)
unfolding ◌>>=◌
single_tail_run svc u a true m tx s = enqueue_run svc u a 0 false tx s
single_tail_run svc u a false m tx s = enqueue_run svc u a 0 false tx s

pub delete_run : (t : ℕ) (s : Db) → Transactions.delete t [] s ≡ (ok tt, [], deleted_db t s)
unfolding Transactions.delete ◌>>=◌
delete_run t s = refl

-- The accounts are settled, and the row is not found, after the last recalculation.
module _ (svc : Service) (t u : ℕ) (s : Db) {tx : Transaction} {acc : Account} {b : ℤ}
    (may : MayDelete u t s tx) (found : Accounts.find tx.account_id s.accounts ≡ some acc)
    (unique : HasUniqueIds s.transactions) where
  -- The run on a transaction that has no linked row.
  single_run :
      link_of tx ≡ none
      → implied_balance tx.account_id acc (deleted_db t s) ≡ ok b
      → Leaves
          (delete_transaction svc t u [] s)
          tx
          (settled_db tx.account_id b acc (deleted_db t s))
  unfolding delete_transaction linked_account_id delete_linked ◌>>=◌
  single_run single implied = rw (active_run u s may.user may.known may.active) (
      rw (own_transaction_run u t s tx may.row may.own) (
        rw single (
          rw (delete_run t s) (
            rw (recalculate_run tx.account_id b acc (deleted_db t s) found implied)
              (single_tail_run svc u tx.account_id tx.is_transfer _ tx _)))))

-- DeleteTransaction by an active user of an own transaction without a linked row succeeds without
-- a fault, if no two rows share an id and the account's other rows imply a balance: the row is no
-- longer found, and the account's stored balance is the one that its other rows imply.
pub delete_transaction-single :
    (svc : Service) (t u : ℕ) (s : Db) {tx : Transaction} {acc : Account} {b : ℤ}
    → MayDelete u t s tx
    → Accounts.find tx.account_id s.accounts ≡ some acc
    → HasUniqueIds s.transactions
    → link_of tx ≡ none
    → implied_balance tx.account_id acc (deleted_db t s) ≡ ok b
    → let (r, _, s') = delete_transaction svc t u [] s in
      (r ≡ ok tx)
      × (Transactions.find t s'.transactions ≡ none)
      × (Accounts.find tx.account_id s'.accounts ≡ some (set_balance b acc))
      × IsSettled tx.account_id s'
delete_transaction-single svc t u s {tx} {acc} {b} may found unique single implied =
    let (answer, accounts, rows) = single_run svc t u s may found unique single implied in
    let unique' = change-HasUniqueIds set_deleted (λ _. refl) t s.transactions unique in
    let alike = settled-Alike tx.account_id b acc (deleted_db t s) found implied unique' in
    let there = settled_found tx.account_id b acc (deleted_db t s) found implied in
    (
      answer,
      rw rows (find-Alike t _ _ alike (find-change_deleted t s.transactions)),
      rw accounts there,
      IsSettled-tables tx.account_id (delete_transaction svc t u [] s).2
          (settled_db tx.account_id b acc (deleted_db t s)) accounts rows
          (IsSettled-self tx.account_id b acc (deleted_db t s) found implied unique'),
    )
