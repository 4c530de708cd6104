-- ===== src/TransactionService/Recalc.antt =====
-- RecalculateFromTransactions and recalculateBalances of
-- backend/internal/services/transactions/service.go.
pub mod Alike
pub mod Rows
pub mod Settled
pub mod Insert
use orgfin_diploma.Prelude.{ℕ, ℤ, ◌+ℤ◌, ◌-ℤ◌, Option, none, some, List, [], ◌∷◌, if◌then◌else◌}
use orgfin_diploma.Models.{Transaction}
use orgfin_diploma.Exec.{Error, Result, ok, err, Exec, pure, ◌>>=◌, ◌>>◌, lift}
use orgfin_diploma.Repositories.Accounts
use orgfin_diploma.Repositories.Transactions

-- The target of an adjustment, which must not be nil.
abbrev pub target_balance : Option ℤ → Result ℤ
target_balance none = err Error.nil_new_balance
target_balance (some b) = ok b

-- The `switch` of RecalculateFromTransactions.
unfoldable pub next_balance : ℤ → Transaction → Result ℤ
next_balance balance tx =
    if tx.is_adjustment
    then target_balance tx.new_balance
    else if tx.is_income
    then ok (balance +ℤ tx.amount)
    else ok (balance -ℤ tx.amount)

abbrev pub bind_result {ℓ κ} : {A : Type ℓ} {B : Type κ} → Result A → (A → Result B) → Result B
bind_result (ok a) f = f a
bind_result (err e) f = err e

-- RecalculateFromTransactions: no database, no side effects.
unfoldable pub recalculate_from_transactions : ℤ → List Transaction → Result ℤ
unfolding next_balance
recalculate_from_transactions initial [] = ok initial
recalculate_from_transactions initial (tx ∷ txs) =
    bind_result (next_balance initial tx) (λ b. recalculate_from_transactions b txs)

-- The `switch` of recalculateBalances, a copy of the other.
unfoldable pub row_balance : ℤ → Transaction → Result ℤ
row_balance balance tx =
    if tx.is_adjustment
    then target_balance tx.new_balance
    else if tx.is_income
    then ok (balance +ℤ tx.amount)
    else ok (balance -ℤ tx.amount)

-- The loop of recalculateBalances: every row is given the balance that it leaves.
unfoldable pub recalculate_rows : ℤ → List Transaction → Exec ℤ
unfolding row_balance
recalculate_rows balance [] = pure balance
recalculate_rows balance (tx ∷ txs) = do
  b ← lift (row_balance balance tx)
  Transactions.update_balance tx.id b
  recalculate_rows b txs

unfoldable pub recalculate_balances : ℕ → Exec (Unit {0})
unfolding recalculate_rows
recalculate_balances account_id = do
  account ← Accounts.get_by_id account_id
  txs ← Transactions.get_by_account_id_for_recalc account_id
  balance ← recalculate_rows account.initial_balance txs
  Accounts.update_balance account_id balance
