-- ===== src/TransactionService/Create/Settled.antt =====
-- When a new transaction keeps the stored balance in agreement with the rows, and when not:
-- CreateTransaction moves the balance by itself and recalculates nothing.
use orgfin_diploma.Repositories.Accounts
use orgfin_diploma.Repositories.Accounts.Lookup.{set_balance, find-change_self}
use orgfin_diploma.TransactionService.Recalc.Insert.{
  StandsBefore, recalculate-insert, PrecedesAdjustment, recalculate-insert_lost,
}
use orgfin_diploma.Exec.{ok}
use orgfin_diploma.TransactionService.Recalc.{next_balance}
use orgfin_diploma.TransactionService.Create.{source_row, new_balance, create_transaction}
use orgfin_diploma.TransactionService.{Service, Input}
use orgfin_diploma.TransactionService.Create.Balance.{source_db, IsAllowed, single_run}
use orgfin_diploma.Prelude.{
  ℕ, ◌≡◌, some, true, false, [], ◌∷◌, arith, List, ==_refl, All, ◌∙◌, ◌≢◌, pos, int_laws,
}
use orgfin_diploma.Models.{Transaction, Account, Db, Time}
use orgfin_diploma.Repositories.Transactions.{for_recalc, of_account, insert_sorted, sort, stored}
use orgfin_diploma.Repositories.Transactions.Sorted.{sort-IsSorted, IsSorted}
use orgfin_diploma.TransactionService.Recalc.Settled.{IsSettled, implied_balance, IsSettled-found}

pub for_recalc-IsSorted : (a : ℕ) (ts : List Transaction) → IsSorted (for_recalc a ts)
unfolding for_recalc
for_recalc-IsSorted a ts = sort-IsSorted _

pub for_recalc-own :
    (a : ℕ) (t : Transaction) (ts : List Transaction)
    → of_account a t ≡ true
    → for_recalc a (t ∷ ts) ≡ insert_sorted t (for_recalc a ts)
unfolding for_recalc sort
for_recalc-own a t ts h = rw h

pub for_recalc-other :
    (a : ℕ) (t : Transaction) (ts : List Transaction)
    → of_account a t ≡ false
    → for_recalc a (t ∷ ts) ≡ for_recalc a ts
unfolding for_recalc
for_recalc-other a t ts h = rw h

-- The row that CreateTransaction stores for the source account.
abbrev pub source_stored : ℕ → Input → Time → Account → Db → Transaction
source_stored u i now acc s = stored s (source_row u i now (new_balance acc i))

pub source-own :
    (u : ℕ) (i : Input) (now : Time) (acc : Account) (s : Db)
    → of_account i.account_id (source_stored u i now acc s) ≡ true
unfolding source_row
source-own u i now acc s = rw (==_refl i.account_id)

pub source-next :
    (u : ℕ) (i : Input) (now : Time) (acc : Account) (s : Db)
    → next_balance acc.balance (source_stored u i now acc s) ≡ ok (new_balance acc i)
unfolding source_row next_balance new_balance
source-next u i now acc s = ground arith

source_implied :
    (u : ℕ) (i : Input) (now : Time) (s : Db) (acc : Account)
    → implied_balance i.account_id acc s ≡ ok acc.balance
    → All (StandsBefore (source_stored u i now acc s)) (for_recalc i.account_id s.transactions)
    → implied_balance i.account_id acc (source_db u i now acc s) ≡ ok (new_balance acc i)
unfolding source_db
source_implied u i now s acc settled before =
    rw
      (for_recalc-own i.account_id (source_stored u i now acc s) s.transactions
        (source-own u i now acc s))
      (recalculate-insert (source_stored u i now acc s) acc.initial_balance acc.balance _
          (for_recalc-IsSorted i.account_id s.transactions) before settled
        ∙ source-next u i now acc s)

source_found :
    (u : ℕ) (i : Input) (now : Time) (s : Db) {acc : Account}
    → Accounts.find i.account_id s.accounts ≡ some acc
    → Accounts.find i.account_id (source_db u i now acc s).accounts
      ≡ some (set_balance (new_balance acc i) acc)
unfolding source_db
source_found u i now s {acc} found =
    find-change_self i.account_id (new_balance acc i) s.accounts found

source_regular :
    (u : ℕ) (i : Input) (now : Time) (acc : Account) (s : Db)
    → i.is_adjustment ≡ false
    → (source_stored u i now acc s).is_adjustment ≡ false
unfolding source_row
source_regular u i now acc s h = h

source_lost :
    (u : ℕ) (i : Input) (now : Time) (s : Db) (acc : Account)
    → i.is_adjustment ≡ false
    → implied_balance i.account_id acc s ≡ ok acc.balance
    → PrecedesAdjustment (source_stored u i now acc s) (for_recalc i.account_id s.transactions)
    → implied_balance i.account_id acc (source_db u i now acc s) ≡ ok acc.balance
unfolding source_db
source_lost u i now s acc regular settled later =
    rw
      (for_recalc-own i.account_id (source_stored u i now acc s) s.transactions
        (source-own u i now acc s))
      (recalculate-insert_lost (source_stored u i now acc s) acc.initial_balance _
          (source_regular u i now acc s regular) later
        ∙ settled)

-- A regular transaction of a non-zero amount moves the stored balance.
new_balance_moves :
    (acc : Account) (i : Input)
    → i.is_adjustment ≡ false
    → i.amount ≢ pos 0
    → new_balance acc i ≢ acc.balance
unfolding new_balance
new_balance_moves acc i regular some_amount same = some_amount (grind int_laws)

-- CreateTransaction of a transaction that is no transfer, by an active user on an own account
-- whose stored balance agrees with its rows, succeeds without a fault and leaves the account's
-- stored balance in agreement with its rows, provided that no adjustment of the account stands
-- behind the new row (and, if the new row is an adjustment, no row at all).
pub create_transaction-IsSettled :
    (svc : Service) (now : Time) (u : ℕ) (i : Input) (s : Db) {acc : Account}
    → IsAllowed u i s acc
    → i.is_transfer ≡ false
    → implied_balance i.account_id acc s ≡ ok acc.balance
    → All (StandsBefore (source_stored u i now acc s)) (for_recalc i.account_id s.transactions)
    → let (r, _, s') = create_transaction svc now u i [] s in
      (r ≡ ok (source_stored u i now acc s)) × IsSettled i.account_id s'
create_transaction-IsSettled svc now u i s {acc} allowed single settled before =
    let (answer, accounts, rows) = single_run svc now u i s allowed single in
    (
      answer,
      (
        set_balance (new_balance acc i) acc,
        rw accounts (source_found u i now s allowed.found),
        rw rows (source_implied u i now s acc settled before),
      ),
    )

-- CreateTransaction of a regular transaction of a non-zero amount that is dated before an
-- adjustment of the account succeeds without a fault, and leaves a stored balance that does not
-- agree with the account's rows: a recalculation would restore the old balance.
pub create_transaction-backdated :
    (svc : Service) (now : Time) (u : ℕ) (i : Input) (s : Db) {acc : Account}
    → IsAllowed u i s acc
    → i.is_transfer ≡ false
    → i.is_adjustment ≡ false
    → i.amount ≢ pos 0
    → implied_balance i.account_id acc s ≡ ok acc.balance
    → PrecedesAdjustment (source_stored u i now acc s) (for_recalc i.account_id s.transactions)
    → let (r, _, s') = create_transaction svc now u i [] s in
      (r ≡ ok (source_stored u i now acc s))
      × (implied_balance i.account_id acc s' ≡ ok acc.balance)
      × ¬ IsSettled i.account_id s'
create_transaction-backdated svc now u i s {acc} allowed single regular some_amount settled later =
    let (answer, accounts, rows) = single_run svc now u i s allowed single in
    let kept : implied_balance i.account_id acc (create_transaction svc now u i [] s).2
        ≡ ok acc.balance =
      rw rows (source_lost u i now s acc regular settled later) in
    let found_now : Accounts.find i.account_id (create_transaction svc now u i [] s).2.accounts
        ≡ some (set_balance (new_balance acc i) acc) =
      rw accounts (source_found u i now s allowed.found) in
    (
      answer,
      kept,
      λ settled'. new_balance_moves acc i regular some_amount (
          cc (
            kept,
            IsSettled-found i.account_id (create_transaction svc now u i [] s).2 found_now settled',
          )),
    )
