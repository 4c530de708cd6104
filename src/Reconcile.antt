-- ===== src/Reconcile.antt =====
-- backend/cmd/reconcile-balances/runner.go: the command that finds the accounts whose stored
-- balance differs from the balance that their rows imply, and inserts a compensating row for
-- each. What it prints are the divergences, which `run` returns. The currency, which the queries
-- join for the printed table, is left out.
pub mod Settles
pub mod Runs
use Prim.Native.String.{◌++◌}
use orgfin_diploma.Prelude.{
  ℕ, ◌+◌, ℤ, pos, ◌-ℤ◌, abs, ltb_ℤ, eqb_ℤ, ltb, leb, Bool, true, false, not, ◌&&◌, ◌||◌, Option,
  none, some, List, [], ◌∷◌, String, ◌==◌, if◌then◌else◌, keep,
}
use orgfin_diploma.Models.{Time, Account, Transaction}
use orgfin_diploma.Exec.{
  Error, Result, ok, err, Exec, pure, ◌>>=◌, ◌>>◌, raise_if, query, returning, lift, row_of,
}
use orgfin_diploma.Repositories.Accounts
use orgfin_diploma.Repositories.Transactions.{stored, for_recalc}
use orgfin_diploma.TransactionService.Recalc.{recalculate_from_transactions}

-- The flags; 0 stands for all users or accounts.
pub record Options : Type 0 where
  pub dry_run : Bool
  pub only_user : ℕ
  pub only_account : ℕ

pub record Divergence : Type 0 where
  pub account_id : ℕ
  pub user_id : ℕ
  pub name : String
  pub stored_balance : ℤ
  pub recalculated : ℤ

-- Diff
unfoldable pub diff : Divergence → ℤ
diff d = d.stored_balance -ℤ d.recalculated

-- Direction: the compensating row goes up or down.
unfoldable pub direction : Divergence → String
unfolding diff
direction d = if ltb_ℤ (pos 0) (diff d) then "up" else "down"

-- Amount
unfoldable pub amount : Divergence → ℤ
unfolding diff
amount d = abs (diff d)

-- IsIncome
unfoldable pub is_income : Divergence → Bool
unfolding diff
is_income d = ltb_ℤ (pos 0) (diff d)

-- WHERE a.is_deleted = false AND a.is_archived = false [AND a.user_id = u]
abbrev pub in_scope : ℕ → Account → Bool
in_scope u a = not a.is_deleted && not a.is_archived && (if ltb 0 u then a.user_id == u else true)

-- ORDER BY a.id ASC
unfoldable pub insert_by_id : Account → List Account → List Account
insert_by_id a [] = a ∷ []
insert_by_id a (b ∷ bs) = if leb a.id b.id then a ∷ b ∷ bs else b ∷ insert_by_id a bs

unfoldable pub sort_by_id : List Account → List Account
unfolding insert_by_id
sort_by_id [] = []
sort_by_id (a ∷ rest) = insert_by_id a (sort_by_id rest)

-- WHERE a.id = i AND a.is_deleted = false AND a.is_archived = false
unfoldable pub find_live : ℕ → List Account → Option Account
find_live i [] = none
find_live i (a ∷ rest) =
    if a.id == i && (not a.is_deleted && not a.is_archived) then some a else find_live i rest

unfoldable pub load_one_account : ℕ → Exec Account
load_one_account i = query (λ s. row_of (find_live i s.accounts))

unfoldable pub load_accounts : Options → Exec (List Account)
unfolding load_one_account sort_by_id
load_accounts opts =
    if ltb 0 opts.only_account
    then (do
      account ← load_one_account opts.only_account
      raise_if (ltb 0 opts.only_user && not (account.user_id == opts.only_user)) Error.access_denied
      pure (account ∷ []))
    else query (λ s. ok (sort_by_id (keep (in_scope opts.only_user) s.accounts)))

-- The rows of an account in the order of the recalculation.
unfoldable pub load_transactions_for_recalc : ℕ → Exec (List Transaction)
load_transactions_for_recalc account_id = query (λ s. ok (for_recalc account_id s.transactions))

-- The divergence of an account, if there is one, before the others.
abbrev pub add_divergence : Account → ℤ → List Divergence → List Divergence
add_divergence a recalculated rest =
    if eqb_ℤ a.balance recalculated
    then rest
    else record {
      account_id = a.id;
      user_id = a.user_id;
      name = a.name;
      stored_balance = a.balance;
      recalculated = recalculated;
    }
      ∷ rest

unfoldable pub detect_divergences : List Account → Exec (List Divergence)
unfolding load_transactions_for_recalc
detect_divergences [] = pure []
detect_divergences (a ∷ rest) = do
  txs ← load_transactions_for_recalc a.id
  recalculated ← lift (recalculate_from_transactions a.initial_balance txs)
  found ← detect_divergences rest
  pure (add_divergence a recalculated found)

abbrev notes_on : String → String
notes_on run_id = "Inserted by reconcile-balances CLI on " ++ run_id

unfoldable pub compensating_row : String → Time → Divergence → Transaction
unfolding amount is_income
compensating_row run_id now d = record {
  id = 0;
  user_id = d.user_id;
  account_id = d.account_id;
  amount = amount d;
  new_balance = some d.stored_balance;
  category_id = none;
  label = some "Reconciliation adjustment";
  is_income = is_income d;
  is_transfer = false;
  linked_transaction_id = none;
  notes = some (notes_on run_id);
  date_time = some now;
  is_deleted = false;
  is_adjustment = true;
  exclude_from_reports = true;
}

unfoldable pub insert_compensating_row : String → Time → Divergence → Exec ℕ
unfolding compensating_row
insert_compensating_row run_id now d = returning λ s. (
  s.next_transaction_id,
  record s {
    transactions = stored s (compensating_row run_id now d) ∷ s.transactions;
    next_transaction_id = s.next_transaction_id + 1;
  },
)

unfoldable pub insert_all : String → Time → List Divergence → Exec (Unit {0})
unfolding insert_compensating_row
insert_all run_id now [] = pure tt
insert_all run_id now (d ∷ rest) = do
  insert_compensating_row run_id now d
  insert_all run_id now rest

unfoldable pub run : (Time → String) → Options → Time → Exec (List Divergence)
unfolding load_accounts detect_divergences insert_all
run format_day opts now = do
  accounts ← load_accounts opts
  diverged ← detect_divergences accounts
  if opts.dry_run then pure tt else insert_all (format_day now) now diverged
  pure diverged
