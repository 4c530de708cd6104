-- ===== src/TransactionService/Update/Settled.antt =====
-- UpdateTransaction, run without a fault: the accounts that it recalculates.
use orgfin_diploma.TransactionService.Delete.Rows.{change-HasUniqueIds}
use orgfin_diploma.TransactionService.Checks.{active_run, own_run}
use orgfin_diploma.TransactionService.Delete.Settled.{MayDelete, own_transaction_run}
use orgfin_diploma.TransactionService.Recalc.Settled.{IsSettled, IsSettled-tables}
use orgfin_diploma.TransactionService.Update.All.{IsRecalculable, loop_run}
use orgfin_diploma.TransactionService.Create.Balance.{Leaves}
use orgfin_diploma.Exec.{◌>>=◌, ◌>>◌, ok, pure, Exec}
use orgfin_diploma.TransactionService.{create_template, Service, enqueue_budget_update, Input}
use orgfin_diploma.TransactionService.Update.{
  enqueue_all, check_update, change_links, apply_input, add_account, update_transaction,
  fetch_linked,
}
use orgfin_diploma.Repositories.Accounts
use orgfin_diploma.Repositories.Transactions
use orgfin_diploma.Repositories.Templates as TemplateRows
use orgfin_diploma.Prelude.{
  ℕ, ◌≡◌, refl, ◌∙◌, Option, none, some, Bool, false, List, [], ◌∷◌, All, inl, inr, Bool-cases,
  All-map_proof,
}
use orgfin_diploma.Models.{Db, Transaction, Time, Account}
use orgfin_diploma.TransactionService.Recalc.Rows.{HasUniqueIds}

-- The columns of the statement.
abbrev set_updated : Transaction → Transaction → Transaction
set_updated tx t = record t {
  category_id = tx.category_id;
  amount = tx.amount;
  new_balance = tx.new_balance;
  label = tx.label;
  notes = tx.notes;
  date_time = tx.date_time;
  is_transfer = tx.is_transfer;
  is_income = tx.is_income;
  is_adjustment = tx.is_adjustment;
  exclude_from_reports = tx.exclude_from_reports;
  linked_transaction_id = tx.linked_transaction_id;
  account_id = tx.account_id;
}

-- The table after a row is persisted.
abbrev pub updated_db : Transaction → Db → Db
updated_db tx s = record s {
  transactions = Transactions.change tx.id (set_updated tx) s.transactions;
}

pub updated-HasUniqueIds :
    (tx : Transaction) (s : Db)
    → HasUniqueIds s.transactions
    → HasUniqueIds (updated_db tx s).transactions
updated-HasUniqueIds tx s unique =
    change-HasUniqueIds (set_updated tx) (λ _. refl) tx.id s.transactions unique

-- A best-effort step ends and leaves the money alone.
abbrev Spares : Exec (Unit {0}) → Db → Type 0
Spares m s =
    (s' : Db) × (m [] s ≡ (ok tt, [], s'))
    × (s'.accounts ≡ s.accounts)
    × (s'.transactions ≡ s.transactions)

enqueue_step : (svc : Service) (u a : ℕ) (s : Db) → Spares (enqueue_budget_update svc u a) s
unfolding enqueue_budget_update ◌>>=◌
enqueue_step svc u a s = elim (Bool-cases svc.has_enqueuer) [
  | inl e ↦ rw e (_, refl, refl, refl)
  | inr e ↦ rw e (_, refl, refl, refl)
]

template_step : (u : ℕ) (i : Input) (s : Db) → Spares (create_template u i) s
unfolding create_template TemplateRows.create ◌>>=◌
template_step u i s = elim (Bool-cases i.is_template) [
  | inl e ↦ rw e (_, refl, refl, refl)
  | inr e ↦ rw e (_, refl, refl, refl)
]

tasks_run :
    (svc : Service) (u : ℕ) (visited : List ℕ) (tx : Transaction) (s : Db)
    → Leaves ((enqueue_all svc u visited >> pure tx) [] s) tx s
unfolding enqueue_all ◌>>=◌
tasks_run svc u [] tx s = (refl, refl, refl)
tasks_run svc u (a ∷ rest) tx s =
    let (s', steps, accounts, rows) = enqueue_step svc u a s in
    let (answer, accounts', rows') = tasks_run svc u rest tx s' in
    rw steps (answer, accounts' ∙ accounts, rows' ∙ rows)

end_run :
    (svc : Service) (u : ℕ) (i : Input) (visited : List ℕ) (tx : Transaction) (s : Db)
    → Leaves ((create_template u i >> (enqueue_all svc u visited >> pure tx)) [] s) tx s
unfolding ◌>>=◌
end_run svc u i visited tx s =
    let (s', steps, accounts, rows) = template_step u i s in
    let (answer, accounts', rows') = tasks_run svc u visited tx s' in
    rw steps (answer, accounts' ∙ accounts, rows' ∙ rows)

module _ (order₁ order₂ : List ℕ → List ℕ) (svc : Service) (now : Time) (u : ℕ) (i : Input) (t : ℕ)
    (s s₁ : Db) {existing tx : Transaction} {linked : Option Transaction} {affected : List ℕ}
    (checks : check_update u i t [] s ≡ (ok (existing, linked), [], s))
    (links : change_links u i now existing.is_transfer i.is_transfer
        (apply_input i now existing)
        (add_account existing.account_id (i.account_id ∷ []))
        linked
        []
        s
      ≡ (ok (tx, affected), [], s₁))
    (balances : All (IsRecalculable (updated_db tx s₁)) (order₁ affected))
    (unique : HasUniqueIds (updated_db tx s₁).transactions) where
  pub visits :
      let (r, _, s') = update_transaction order₁ order₂ svc now u i t [] s in
      (r ≡ ok tx) × All (λ a. IsSettled a s') (order₁ affected)
  unfolding update_transaction Transactions.update ◌>>=◌
  visits =
      let (t, loops, _, settled) = loop_run (order₁ affected) (updated_db tx s₁) balances unique in
      let (answer, accounts, rows) = end_run svc u i (order₂ affected) tx t in
      rw checks (
        rw links (
          rw loops (
            answer,
            All-map_proof
                (λ a.
                  IsSettled-tables a
                    ((create_template u i >> (enqueue_all svc u (order₂ affected) >> pure tx)) []
                      t).2
                    t accounts rows)
                (order₁ affected) settled,
          )))

-- The checks of a transaction that neither was nor is a transfer.
regular_check_run :
    (u : ℕ) (i : Input) (t : ℕ) (s : Db) {existing : Transaction} {acc : Account}
    → MayDelete u t s existing
    → Accounts.find i.account_id s.accounts ≡ some acc
    → acc.user_id ≡ u
    → existing.is_transfer ≡ false
    → i.is_transfer ≡ false
    → check_update u i t [] s ≡ (ok (existing, none), [], s)
unfolding check_update fetch_linked ◌>>=◌
regular_check_run u i t s {existing} {acc} may found own was is =
    rw (active_run u s may.user may.known may.active) (
      rw (own_transaction_run u t s existing may.row may.own)
        (rw (is, was) (rw (own_run u i.account_id s acc found own))))

regular_links_run :
    (u : ℕ) (i : Input) (now : Time) (tx : Transaction) (accounts : List ℕ) (was is : Bool)
    (linked : Option Transaction) (s : Db)
    → was ≡ false
    → is ≡ false
    → change_links u i now was is tx accounts linked [] s ≡ (ok (tx, accounts), [], s)
unfolding change_links ◌>>=◌
regular_links_run u i now tx accounts was is linked s p q = rw (p, q)

-- UpdateTransaction by an active user of an own transaction that is no transfer, with an input that
-- is no transfer and names an own account, succeeds without a fault, if the edited rows of the
-- visited accounts imply balances and no two rows share an id: the stored balance of every visited
-- account then agrees with its rows. The visited accounts are the list that the order of the map
-- makes of the transaction's old and new account.
pub update_transaction-IsSettled :
    (order₁ order₂ : List ℕ → List ℕ) (svc : Service) (now : Time) (u : ℕ) (i : Input) (t : ℕ)
    (s : Db) {existing : Transaction} {acc : Account}
    → MayDelete u t s existing
    → Accounts.find i.account_id s.accounts ≡ some acc
    → acc.user_id ≡ u
    → existing.is_transfer ≡ false
    → i.is_transfer ≡ false
    → All
        (IsRecalculable (updated_db (apply_input i now existing) s))
        (order₁ (add_account existing.account_id (i.account_id ∷ [])))
    → HasUniqueIds s.transactions
    → let (r, _, s') = update_transaction order₁ order₂ svc now u i t [] s in
      (r ≡ ok (apply_input i now existing))
      × All (λ a. IsSettled a s') (order₁ (add_account existing.account_id (i.account_id ∷ [])))
update_transaction-IsSettled order₁ order₂ svc now u i t s {existing} may found own was is balances
      unique =
    visits order₁ order₂ svc now u i t s s (regular_check_run u i t s may found own was is)
      (regular_links_run u i now _ _ existing.is_transfer i.is_transfer none s was is) balances
      (updated-HasUniqueIds (apply_input i now existing) s unique)
