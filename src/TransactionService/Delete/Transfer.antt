-- ===== src/TransactionService/Delete/Transfer.antt =====
-- DeleteTransaction of one side of a transfer, run without a fault.
use orgfin_diploma.TransactionService.Recalc.Alike.{Alike}
use orgfin_diploma.TransactionService.Create.Balance.{Leaves}
use orgfin_diploma.Prelude.{
  refl, ℕ, ℤ, ◌≡◌, ◌≢◌, sym, ◌∙◌, none, some, true, false, [], Bool, ◌&&◌, not, ◌==◌, ne→==,
}
use orgfin_diploma.Models.{Account, Transaction, Db}
use orgfin_diploma.Exec.{ok, pure, ◌>>=◌, ◌>>◌, attempt, when, Exec}
use orgfin_diploma.Repositories.Transactions
use orgfin_diploma.Repositories.Accounts
use orgfin_diploma.TransactionService.{Service, enqueue_budget_update}
use orgfin_diploma.TransactionService.Checks.{active_run}
use orgfin_diploma.TransactionService.Recalc.{recalculate_balances}
use orgfin_diploma.TransactionService.Recalc.Rows.{HasUniqueIds}
use orgfin_diploma.TransactionService.Recalc.Settled.{
  IsSettled, implied_balance, settled_db, recalculate_run, IsSettled-self, IsSettled-other,
  implied-Alike, settled_found_other, settled-Alike, IsSettled-tables,
}
use orgfin_diploma.TransactionService.Delete.{
  link_of, linked_account_id, delete_linked, delete_transaction,
}
use orgfin_diploma.TransactionService.Delete.Rows.{
  set_deleted, change-HasUniqueIds, find-Alike, find-change_deleted, HasUniqueIds-Alike,
  find-change_still_none,
}
use orgfin_diploma.TransactionService.Delete.Settled.{
  MayDelete, deleted_db, own_transaction_run, enqueue_run,
}

tail_run :
    (svc : Service) (u a c : ℕ) (p z : Bool) (m : Exec (Unit {0})) (tx : Transaction) (s s' : Db)
    → p ≡ true
    → z ≡ false
    → m [] s ≡ (ok tt, [], s')
    → Leaves
        ((when (p && not z) (attempt m)
            >> (enqueue_budget_update svc u a
                >> (when (not z) (enqueue_budget_update svc u c) >> pure tx)))
          [] s)
        tx
        s'
unfolding ◌>>=◌
tail_run svc u a c p z m tx s s' hp hz run = rw (hp, hz, run) (enqueue_run svc u a c true tx s')

module _ (svc : Service) (t u : ℕ) (s : Db) {tx : Transaction} {acc : Account} {b : ℤ}
    (may : MayDelete u t s tx) (found : Accounts.find tx.account_id s.accounts ≡ some acc)
    (unique : HasUniqueIds s.transactions) {l : ℕ} {linked : Transaction} {lacc : Account} {d : ℤ}
    (is_transfer : tx.is_transfer ≡ true) (link : link_of tx ≡ some l)
    (linked_row : Transactions.find l s.transactions ≡ some linked)
    (not_zero : linked.account_id ≢ 0)
    (linked_found : Accounts.find linked.account_id s.accounts ≡ some lacc)
    (apart : linked.account_id ≢ tx.account_id)
    (implied : implied_balance tx.account_id acc (deleted_db l (deleted_db t s)) ≡ ok b)
    (linked_implied : implied_balance linked.account_id lacc (deleted_db l (deleted_db t s))
      ≡ ok d) where
  abbrev both_deleted : Db
  both_deleted = deleted_db l (deleted_db t s)

  abbrev first_settled : Db
  first_settled = settled_db tx.account_id b acc both_deleted

  both_unique : HasUniqueIds both_deleted.transactions
  both_unique =
      change-HasUniqueIds set_deleted (λ _. refl) l _
        (change-HasUniqueIds set_deleted (λ _. refl) t s.transactions unique)

  second_found : Accounts.find linked.account_id first_settled.accounts ≡ some lacc
  second_found =
      settled_found_other tx.account_id b acc both_deleted found implied linked.account_id apart
      ∙ linked_found

  second_implied : implied_balance linked.account_id lacc first_settled ≡ ok d
  second_implied =
      sym (
        implied-Alike linked.account_id lacc both_deleted first_settled
          (settled-Alike tx.account_id b acc both_deleted found implied both_unique))
      ∙ linked_implied

  abbrev both_settled : Db
  both_settled = settled_db linked.account_id d lacc first_settled

  first-Alike : Alike both_deleted.transactions first_settled.transactions
  first-Alike = settled-Alike tx.account_id b acc both_deleted found implied both_unique

  first_unique : HasUniqueIds first_settled.transactions
  first_unique = HasUniqueIds-Alike _ _ first-Alike both_unique

  -- What is not found after the two deletes is not found at the end.
  still_gone :
      (i : ℕ)
      → Transactions.find i both_deleted.transactions ≡ none
      → Transactions.find i both_settled.transactions ≡ none
  still_gone i h =
      find-Alike i _ _
        (settled-Alike linked.account_id d lacc first_settled second_found second_implied
          first_unique)
        (find-Alike i _ _ first-Alike h)

  transfer_gone :
      (Transactions.find t both_settled.transactions ≡ none)
      × (Transactions.find l both_settled.transactions ≡ none)
  transfer_gone = (
    still_gone t (
        find-change_still_none t l (Transactions.change t set_deleted s.transactions)
          (find-change_deleted t s.transactions)),
    still_gone l (find-change_deleted l (Transactions.change t set_deleted s.transactions)),
  )

  transfer-IsSettled :
      (s' : Db)
      → s'.accounts ≡ both_settled.accounts
      → s'.transactions ≡ both_settled.transactions
      → IsSettled tx.account_id s' × IsSettled linked.account_id s'
  transfer-IsSettled s' accounts rows = (
    IsSettled-tables tx.account_id s' both_settled accounts rows (
        IsSettled-other linked.account_id d lacc first_settled second_found second_implied
          tx.account_id (λ e. apart (sym e)) first_unique
          (IsSettled-self tx.account_id b acc both_deleted found implied both_unique)),
    IsSettled-tables linked.account_id s' both_settled accounts rows (
        IsSettled-self linked.account_id d lacc first_settled second_found second_implied
          first_unique),
  )

  -- The run on a transfer.
  transfer_run :
      Leaves
        (delete_transaction svc t u [] s)
        tx
        (settled_db linked.account_id d lacc first_settled)
  unfolding delete_transaction linked_account_id delete_linked Transactions.get_by_id
      Transactions.delete ◌>>=◌
  transfer_run = rw (active_run u s may.user may.known may.active) (
      rw (own_transaction_run u t s tx may.row may.own) (
        rw (link, linked_row)
          (rw (recalculate_run tx.account_id b acc both_deleted found implied) (
            tail_run svc u tx.account_id linked.account_id tx.is_transfer (linked.account_id == 0)
              (recalculate_balances linked.account_id) tx first_settled _ is_transfer
              (ne→== linked.account_id 0 not_zero)
              (recalculate_run linked.account_id d lacc first_settled second_found
                second_implied)))))

-- DeleteTransaction by an active user of one side of a transfer between two accounts succeeds
-- without a fault, if no two rows share an id and the other rows of both accounts imply balances:
-- neither of the two rows is found any more, and the stored balances of both
-- accounts agree with their rows.
pub delete_transaction-transfer :
    (svc : Service) (t u : ℕ) (s : Db) {tx : Transaction} {acc : Account} {b : ℤ} {l : ℕ}
    {linked : Transaction} {lacc : Account} {d : ℤ}
    → MayDelete u t s tx
    → Accounts.find tx.account_id s.accounts ≡ some acc
    → HasUniqueIds s.transactions
    → tx.is_transfer ≡ true
    → link_of tx ≡ some l
    → Transactions.find l s.transactions ≡ some linked
    → linked.account_id ≢ 0
    → Accounts.find linked.account_id s.accounts ≡ some lacc
    → linked.account_id ≢ tx.account_id
    → implied_balance tx.account_id acc (deleted_db l (deleted_db t s)) ≡ ok b
    → implied_balance linked.account_id lacc (deleted_db l (deleted_db t s)) ≡ ok d
    → let (r, _, s') = delete_transaction svc t u [] s in
      (r ≡ ok tx)
      × (Transactions.find t s'.transactions ≡ none)
      × (Transactions.find l s'.transactions ≡ none)
      × IsSettled tx.account_id s'
      × IsSettled linked.account_id s'
delete_transaction-transfer svc t u s may found unique is_tr link row nz lfound apart imp limp =
    let (answer, accounts, rows) =
      transfer_run svc t u s may found unique is_tr link row nz lfound apart imp limp in
    let (gone, linked_gone) =
      transfer_gone svc t u s may found unique is_tr link row nz lfound apart imp limp in
    let (settled, linked_settled) =
      transfer-IsSettled svc t u s may found unique is_tr link row nz lfound apart imp limp
        (delete_transaction svc t u [] s).2 accounts rows in
    (answer, rw rows gone, rw rows linked_gone, settled, linked_settled)
