-- ===== src/TransactionService/Create/Transfer.antt =====
-- Transfers: CreateTransaction moves an amount from one account to another, and stores two rows
-- that name each other.
use orgfin_diploma.Repositories.Transactions.{stored}
use orgfin_diploma.Repositories.Transactions
use orgfin_diploma.Exec.{ok}
use orgfin_diploma.TransactionService.Create.{
  new_balance, create_transaction, source_row, target_row,
}
use orgfin_diploma.Repositories.Accounts
use orgfin_diploma.TransactionService.{Input, received, Service}
use orgfin_diploma.Prelude.{
  ℕ, ℤ, ◌+ℤ◌, ◌-ℤ◌, ◌≡◌, refl, ◌≢◌, sym, none, some, false, [], arith, ◌∙◌, subst, ◌+◌, int_laws,
  ap,
}
use orgfin_diploma.Models.{Account, Db, Time, Transaction}
use orgfin_diploma.Repositories.Accounts.Lookup.{
  set_balance, find-change_self, find-change_ne, find_id,
}
use orgfin_diploma.Repositories.Accounts.Sum.{
  HasUniqueIds, balance_sum, sum-change, change-HasUniqueIds,
}
use orgfin_diploma.TransactionService.Create.Balance.{
  IsAllowed, IsTransferTo, transfer_run, target_db, source_db, linked_source,
}

module _ (u : ℕ) (i : Input) (now : Time) (s : Db) {acc target : Account}
    (allowed : IsAllowed u i s acc) (to : IsTransferTo u i s target) where
  abbrev after : Db
  after = target_db u i now acc target s

  target_names : target.id ≡ to.target_id
  target_names = find_id to.target_id s.accounts to.found

  target_not_source : target.id ≢ i.account_id
  target_not_source e = to.other (sym target_names ∙ e)

  source_in_target_db :
      Accounts.find i.account_id after.accounts ≡ some (set_balance (new_balance acc i) acc)
  unfolding target_db source_db
  source_in_target_db =
      find-change_ne target.id i.account_id _ _ (λ e. target_not_source (sym e))
      ∙ find-change_self i.account_id (new_balance acc i) s.accounts allowed.found

  target_in_source_db : Accounts.find target.id (source_db u i now acc s).accounts ≡ some target
  unfolding source_db
  target_in_source_db =
      find-change_ne i.account_id target.id _ _ target_not_source
      ∙ subst (λ k. Accounts.find k s.accounts ≡ some target) (sym target_names) to.found

  target_in_target_db :
      Accounts.find target.id after.accounts
      ≡ some (set_balance (target.balance +ℤ received i) target)
  unfolding target_db
  target_in_target_db =
      find-change_self target.id (target.balance +ℤ received i) (source_db u i now acc s).accounts
        target_in_source_db

  other_in_target_db :
      (j : ℕ)
      → j ≢ i.account_id
      → j ≢ to.target_id
      → Accounts.find j after.accounts ≡ Accounts.find j s.accounts
  unfolding target_db source_db
  other_in_target_db j a b =
      find-change_ne target.id j _ _ (λ e. b (e ∙ target_names))
      ∙ find-change_ne i.account_id j _ _ a

  unique_after_source : HasUniqueIds s.accounts → HasUniqueIds (source_db u i now acc s).accounts
  unfolding source_db
  unique_after_source h = change-HasUniqueIds i.account_id (new_balance acc i) s.accounts h

  sum_source_db :
      HasUniqueIds s.accounts
      → balance_sum (source_db u i now acc s).accounts +ℤ acc.balance
        ≡ balance_sum s.accounts +ℤ new_balance acc i
  unfolding source_db
  sum_source_db h = sum-change i.account_id (new_balance acc i) s.accounts h allowed.found

  sum_target_db :
      HasUniqueIds s.accounts
      → balance_sum after.accounts +ℤ target.balance
        ≡ balance_sum (source_db u i now acc s).accounts +ℤ (target.balance +ℤ received i)
  unfolding target_db
  sum_target_db h =
      sum-change target.id (target.balance +ℤ received i) (source_db u i now acc s).accounts
        (unique_after_source h) target_in_source_db

new_balance-expense :
    (acc : Account) (i : Input)
    → i.is_income ≡ false
    → i.is_adjustment ≡ false
    → new_balance acc i ≡ acc.balance -ℤ i.amount
unfolding new_balance
new_balance-expense acc i p q = rw (p, q)

-- CreateTransaction of a transfer between two own accounts, by an active user, entered as an
-- expense of the source, succeeds without a fault: the source account loses the amount, the
-- target account gains the target amount (the amount itself if none is given), and no other
-- account changes.
pub create_transaction-transfer :
    (svc : Service) (now : Time) (u : ℕ) (i : Input) (s : Db) {acc target : Account}
    → IsAllowed u i s acc
    → (to : IsTransferTo u i s target) → i.is_income ≡ false
    → i.is_adjustment ≡ false
    → (j : ℕ) → j ≢ i.account_id
    → j ≢ to.target_id
    → let (r, _, s') = create_transaction svc now u i [] s in
      (r ≡ ok (linked_source u i now acc s))
      × (Accounts.find i.account_id s'.accounts ≡ some (set_balance (acc.balance -ℤ i.amount) acc))
      × (Accounts.find to.target_id s'.accounts
          ≡ some (set_balance (target.balance +ℤ received i) target))
      × (Accounts.find j s'.accounts ≡ Accounts.find j s.accounts)
create_transaction-transfer svc now u i s {acc} {target} allowed to expense regular j nj mj =
    let (answer, accounts, rows) = transfer_run svc now u i s allowed to in
    (
      answer,
      rw (accounts, ← new_balance-expense acc i expense regular)
          (source_in_target_db u i now s allowed to),
      rw (accounts, ← target_names u i now s allowed to) (target_in_target_db u i now s allowed to),
      rw accounts (other_in_target_db u i now s allowed to j nj mj),
    )

received_same : (i : Input) → i.target_amount ≡ none → received i ≡ i.amount
received_same i h = rw h

balance_out : (x y z a t m : ℤ) → y +ℤ a ≡ x +ℤ (a -ℤ m) → z +ℤ t ≡ y +ℤ (t +ℤ m) → z ≡ x
balance_out x y z a t m h k = grind int_laws

-- CreateTransaction of a transfer between two own accounts, by an active user, entered as an
-- expense of the source with no separate target amount, conserves the sum of all stored balances
-- if no fault occurs and no two accounts share an id.
pub create_transaction-conserves :
    (svc : Service) (now : Time) (u : ℕ) (i : Input) (s : Db) {acc target : Account}
    → IsAllowed u i s acc
    → IsTransferTo u i s target
    → i.is_income ≡ false
    → i.is_adjustment ≡ false
    → i.target_amount ≡ none
    → HasUniqueIds s.accounts
    → balance_sum (create_transaction svc now u i [] s).2.accounts ≡ balance_sum s.accounts
create_transaction-conserves svc now u i s {acc} {target} allowed to expense regular same unique =
    let (answer, accounts, rows) = transfer_run svc now u i s allowed to in
    let paid = new_balance-expense acc i expense regular in
    let left = sum_source_db u i now s allowed to unique in
    let right = sum_target_db u i now s allowed to unique in
    rw accounts (
      balance_out _ _ _ acc.balance target.balance i.amount (rw paid at left)
        (rw (received_same i same) at right))

-- The row of the target account.
linked_target : ℕ → Input → Time → Account → Account → Db → Transaction
linked_target u i now acc target s =
    stored (source_db u i now acc s) (target_row u i now target s.next_transaction_id)

find_source :
    (u : ℕ) (i : Input) (now : Time) (acc target : Account) (s : Db)
    → Transactions.find s.next_transaction_id (target_db u i now acc target s).transactions
      ≡ some (linked_source u i now acc s)
unfolding target_db source_db linked_source source_row target_row Transactions.find
    Transactions.change
find_source u i now acc target s = ground arith

find_target :
    (u : ℕ) (i : Input) (now : Time) (acc target : Account) (s : Db)
    → Transactions.find (s.next_transaction_id + 1) (target_db u i now acc target s).transactions
      ≡ some (linked_target u i now acc target s)
unfolding target_db source_db linked_target source_row target_row Transactions.find
    Transactions.change
find_target u i now acc target s = ground arith

module _ (u : ℕ) (i : Input) (now : Time) (acc target : Account) (s : Db) where
  source_links :
      (linked_source u i now acc s).linked_transaction_id
      ≡ some (linked_target u i now acc target s).id
  unfolding linked_source linked_target source_db
  source_links = refl

  target_links :
      (linked_target u i now acc target s).linked_transaction_id
      ≡ some (linked_source u i now acc s).id
  unfolding linked_source linked_target target_row
  target_links = refl

  target_account_lem : some (linked_target u i now acc target s).account_id ≡ some target.id
  unfolding linked_target target_row
  target_account_lem = refl

source_account :
    (u : ℕ) (i : Input) (now : Time) (acc : Account) (s : Db)
    → (linked_source u i now acc s).account_id ≡ i.account_id
unfolding linked_source source_row
source_account u i now acc s = refl

-- CreateTransaction of a transfer between two own accounts, by an active user, without a fault
-- stores two rows under the next two ids, one for each account, and each names the other.
pub create_transaction-links :
    (svc : Service) (now : Time) (u : ℕ) (i : Input) (s : Db) {acc target : Account}
    → IsAllowed u i s acc
    → IsTransferTo u i s target
    → let (r, _, s') = create_transaction svc now u i [] s in
      (t l : Transaction) × (Transactions.find s.next_transaction_id s'.transactions ≡ some t)
      × (Transactions.find (s.next_transaction_id + 1) s'.transactions ≡ some l)
      × (r ≡ ok t)
      × (t.linked_transaction_id ≡ some l.id)
      × (l.linked_transaction_id ≡ some t.id)
      × (t.account_id ≡ i.account_id)
      × (some l.account_id ≡ i.target_account_id)
create_transaction-links svc now u i s {acc} {target} allowed to =
    let (answer, accounts, rows) = transfer_run svc now u i s allowed to in
    (
      linked_source u i now acc s,
      linked_target u i now acc target s,
      rw rows (find_source u i now acc target s),
      rw rows (find_target u i now acc target s),
      answer,
      source_links u i now acc target s,
      target_links u i now acc target s,
      source_account u i now acc s,
      target_account_lem u i now acc target s
          ∙ ap some (target_names u i now s allowed to)
          ∙ sym to.names,
    )
