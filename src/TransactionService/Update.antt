-- ===== src/TransactionService/Update.antt =====
-- UpdateTransaction of backend/internal/services/transactions/service.go. Go visits the keys of a
-- map in an order that it does not promise, so the two loops over the affected accounts take
-- their order as an argument.
pub mod Rejects
pub mod All
pub mod Settled
pub mod Relinked
use orgfin_diploma.Prelude.{
  ℕ, ◌+ℤ◌, Bool, true, false, Option, none, some, List, [], ◌∷◌, if◌then◌else◌, contains,
}
use orgfin_diploma.Models.{Time, Account, Transaction}
use orgfin_diploma.Exec.{Error, Exec, pure, ◌>>=◌, ◌>>◌, raise_if, attempt, try}
use orgfin_diploma.Repositories.Transactions
use orgfin_diploma.TransactionService.{
  Service, Input, active_user, own_account, is_self_transfer, value_or, received, create_template,
  enqueue_budget_update,
}
use orgfin_diploma.TransactionService.Recalc.{recalculate_balances}
use orgfin_diploma.TransactionService.Delete.{own_transaction, link_of}

-- accountsToRecalc, a set.
abbrev pub add_account : ℕ → List ℕ → List ℕ
add_account a as_set = if contains a as_set then as_set else a ∷ as_set

-- The linked row of the existing transaction; a failure to fetch it counts as none.
unfoldable pub fetch_linked : Option ℕ → Exec (Option Transaction)
fetch_linked none = pure none
fetch_linked (some l) = try (Transactions.get_by_id l)

-- The source row with the fields of the input; its stored balance and its link stay for now.
unfoldable pub apply_input : Input → Time → Transaction → Transaction
apply_input i now tx = record tx {
  account_id = i.account_id;
  amount = i.amount;
  category_id = i.category_id;
  label = some i.label;
  notes = i.notes;
  date_time = some (value_or now i.date_time);
  is_income = i.is_income;
  is_transfer = i.is_transfer;
  is_adjustment = i.is_adjustment;
  exclude_from_reports = i.exclude_from_reports;
}

-- The linked row that mirrors the source.
unfoldable pub apply_input_linked : Input → Time → ℕ → Transaction → Transaction
apply_input_linked i now target tx = record tx {
  account_id = target;
  amount = received i;
  label = some i.label;
  notes = i.notes;
  date_time = some (value_or now i.date_time);
  category_id = i.category_id;
  exclude_from_reports = i.exclude_from_reports;
  is_income = true;
  is_transfer = true;
}

-- The row of the other account, which was looked up by the id that the input names.
unfoldable pub new_linked_row : ℕ → Input → Time → ℕ → Account → Transaction
new_linked_row user_id i now tx_id target = record {
  id = 0;
  user_id = user_id;
  account_id = target.id;
  amount = received i;
  new_balance = some (target.balance +ℤ received i);
  category_id = i.category_id;
  label = some i.label;
  is_income = true;
  is_transfer = true;
  linked_transaction_id = some tx_id;
  notes = i.notes;
  date_time = some (value_or now i.date_time);
  is_deleted = false;
  is_adjustment = false;
  exclude_from_reports = i.exclude_from_reports;
}

-- The source row to store and the accounts to recalculate.
abbrev pub Relinked : Type 0
Relinked = Transaction × List ℕ

-- Scenario 4: a transfer becomes a regular transaction.
unfoldable pub unlink : Transaction → List ℕ → Option Transaction → Exec Relinked
unlink tx accounts none = pure (record tx { linked_transaction_id = none }, accounts)
unlink tx accounts (some linked) = do
  attempt (Transactions.delete linked.id)
  pure (record tx { linked_transaction_id = none }, add_account linked.account_id accounts)

-- Scenarios 1 to 3: a transfer stays one.
unfoldable pub relink : ℕ → Input → Time → Transaction → List ℕ → Option Transaction → Exec Relinked
unfolding apply_input_linked
relink user_id i now tx accounts none = pure (tx, accounts)
relink user_id i now tx accounts (some linked) = do
  let target_id = value_or linked.account_id i.target_account_id
  own_account user_id target_id
  Transactions.update (apply_input_linked i now target_id linked)
  pure (tx, add_account linked.account_id (add_account target_id accounts))

-- Scenario 5: a regular transaction becomes a transfer.
unfoldable pub link : ℕ → Input → Time → Transaction → List ℕ → Option ℕ → Exec Relinked
unfolding new_linked_row
link user_id i now tx accounts none = pure (tx, accounts)
link user_id i now tx accounts (some target_id) = do
  target ← own_account user_id target_id
  linked ← Transactions.create (new_linked_row user_id i now tx.id target)
  pure (record tx { linked_transaction_id = some linked.id }, add_account target_id accounts)

-- The `switch` on whether the transaction was a transfer and whether it is one now.
unfoldable pub change_links :
    ℕ → Input → Time → Bool → Bool → Transaction → List ℕ → Option Transaction → Exec Relinked
unfolding unlink relink link
change_links user_id i now true false tx accounts linked = unlink tx accounts linked
change_links user_id i now true true tx accounts linked = relink user_id i now tx accounts linked
change_links user_id i now false true tx accounts linked =
    link user_id i now tx accounts i.target_account_id
change_links user_id i now false false tx accounts linked = pure (tx, accounts)

-- A loop over accounts whose errors are logged and dropped.
unfoldable pub recalculate_all : List ℕ → Exec (Unit {0})
recalculate_all [] = pure tt
recalculate_all (a ∷ rest) = do attempt (recalculate_balances a); recalculate_all rest

unfoldable pub enqueue_all : Service → ℕ → List ℕ → Exec (Unit {0})
enqueue_all svc user_id [] = pure tt
enqueue_all svc user_id (a ∷ rest) = do
  enqueue_budget_update svc user_id a
  enqueue_all svc user_id rest

-- What the method fetches and checks before it writes: the existing row, its linked row.
unfoldable pub check_update : ℕ → Input → ℕ → Exec (Transaction × Option Transaction)
unfolding own_transaction fetch_linked
check_update user_id i tx_id = do
  active_user user_id
  existing ← own_transaction user_id tx_id
  raise_if (is_self_transfer i) Error.self_transfer
  linked ← fetch_linked (link_of existing)
  own_account user_id i.account_id
  pure (existing, linked)

unfoldable pub update_transaction :
    (List ℕ → List ℕ) → (List ℕ → List ℕ) → Service → Time → ℕ → Input → ℕ → Exec Transaction
unfolding check_update apply_input change_links recalculate_all enqueue_all
update_transaction recalc_order enqueue_order svc now user_id i tx_id = do
  (existing, linked) ← check_update user_id i tx_id
  let accounts = add_account existing.account_id (i.account_id ∷ [])
  (tx, affected) ←
      change_links user_id i now existing.is_transfer i.is_transfer (apply_input i now existing)
        accounts linked
  Transactions.update tx
  recalculate_all (recalc_order affected)
  create_template user_id i
  enqueue_all svc user_id (enqueue_order affected)
  pure tx
