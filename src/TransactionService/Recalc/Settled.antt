-- ===== src/TransactionService/Recalc/Settled.antt =====
-- recalculateBalances, run without a fault, leaves the account with the balance that
-- RecalculateFromTransactions computes from its rows, and every other account as it was.
use orgfin_diploma.Prelude.{ℕ, ℤ, ◌≡◌, refl, sym, ◌∙◌, ◌≢◌, some, [], subst}
use orgfin_diploma.Models.{Account, Db}
use orgfin_diploma.Exec.{Result, ok, ◌>>=◌, bind_ok}
use orgfin_diploma.Repositories.Accounts
use orgfin_diploma.Repositories.Accounts.Lookup.{set_balance, find-change_self, find-change_ne}
use orgfin_diploma.Repositories.Transactions
use orgfin_diploma.Repositories.Transactions.{for_recalc}
use orgfin_diploma.TransactionService.Recalc.{
  recalculate_from_transactions, recalculate_rows, recalculate_balances,
}
use orgfin_diploma.TransactionService.Recalc.Alike.{Alike, for_recalc-Alike, recalculate-Alike}
use orgfin_diploma.TransactionService.Recalc.Rows.{
  HasUniqueIds, rows_result, rows_frame, for_recalc-rows-Alike,
}

-- The balance that the rows of account `a` imply, from the initial balance of `acc`.
abbrev pub implied_balance : ℕ → Account → Db → Result ℤ
implied_balance a acc s =
    recalculate_from_transactions acc.initial_balance (for_recalc a s.transactions)

-- The stored balance of the account is the one that its rows imply.
abbrev pub IsSettled : ℕ → Db → Type 0
IsSettled a s =
    (acc : Account) × (Accounts.find a s.accounts ≡ some acc)
    × (implied_balance a acc s ≡ ok acc.balance)

pub IsSettled-found :
    (a : ℕ) (s : Db) {acc : Account}
    → Accounts.find a s.accounts ≡ some acc
    → IsSettled a s
    → implied_balance a acc s ≡ ok acc.balance
IsSettled-found a s {acc} found (other, other_found, implied) =
    let same : other ≡ acc = cc (found, other_found) in
    subst (λ c. implied_balance a c s ≡ ok c.balance) same implied

-- The database after the loop over the rows of account `a`.
pub written_rows : ℕ → Account → Db → Db
written_rows a acc s = record s {
  transactions =
      (recalculate_rows acc.initial_balance (for_recalc a s.transactions) [] s).2.transactions;
}

-- The database after a recalculation of account `a` to the balance `b`.
unfoldable pub settled_db : ℕ → ℤ → Account → Db → Db
unfolding written_rows
settled_db a b acc s = record (written_rows a acc s) {
  accounts = Accounts.change a (set_balance b) s.accounts;
}

pub implied-Alike :
    (a : ℕ) (acc : Account) (s t : Db)
    → Alike s.transactions t.transactions
    → implied_balance a acc s ≡ implied_balance a acc t
implied-Alike a acc s t h = recalculate-Alike acc.initial_balance _ _ (for_recalc-Alike a _ _ h)

-- Agreement depends on the two tables of money only.
pub IsSettled-tables :
    (a : ℕ) (s t : Db)
    → s.accounts ≡ t.accounts
    → s.transactions ≡ t.transactions
    → IsSettled a t
    → IsSettled a s
IsSettled-tables a s t accounts rows (acc, found, implied) =
    (acc, rw accounts found, rw rows implied)

module _ (a : ℕ) (b : ℤ) (acc : Account) (s : Db) (found : Accounts.find a s.accounts ≡ some acc)
    (implied : implied_balance a acc s ≡ ok b) where
  rows_run :
      recalculate_rows acc.initial_balance (for_recalc a s.transactions) [] s
      ≡ (ok b, [], written_rows a acc s)
  unfolding written_rows
  rows_run =
      let (spent, framed) = rows_frame acc.initial_balance (for_recalc a s.transactions) s in
      let result = rows_result acc.initial_balance (for_recalc a s.transactions) s ∙ implied in
      λ i. (result i, spent i, framed i)

  -- A run without a fault reaches its end.
  pub recalculate_run : recalculate_balances a [] s ≡ (ok tt, [], settled_db a b acc s)
  unfolding recalculate_balances settled_db Accounts.get_by_id
      Transactions.get_by_account_id_for_recalc Accounts.update_balance written_rows ◌>>=◌
  recalculate_run = rw found (
      bind_ok (recalculate_rows acc.initial_balance (for_recalc a s.transactions))
        (λ balance. Accounts.update_balance a balance) {fs = []} {s = s} rows_run)

  pub settled_found : Accounts.find a (settled_db a b acc s).accounts ≡ some (set_balance b acc)
  unfolding settled_db
  settled_found = find-change_self a b s.accounts found

  module _ (unique : HasUniqueIds s.transactions) where
    -- The rows that the balance is computed from are left alike.
    pub settled-Alike : Alike s.transactions (settled_db a b acc s).transactions
    unfolding settled_db written_rows
    settled-Alike = for_recalc-rows-Alike a acc.initial_balance s unique

    pub IsSettled-self : IsSettled a (settled_db a b acc s)
    IsSettled-self = (
      set_balance b acc,
      settled_found,
      sym (implied-Alike a acc s (settled_db a b acc s) settled-Alike) ∙ implied,
    )

  module _ (c : ℕ) (other : c ≢ a) where
    pub settled_found_other :
        Accounts.find c (settled_db a b acc s).accounts ≡ Accounts.find c s.accounts
    unfolding settled_db
    settled_found_other = find-change_ne a c b s.accounts other

    -- Another account that was settled stays so.
    pub IsSettled-other :
        HasUniqueIds s.transactions → IsSettled c s → IsSettled c (settled_db a b acc s)
    IsSettled-other unique (cacc, cfound, cimplied) = (
      cacc,
      settled_found_other ∙ cfound,
      sym (implied-Alike c cacc s (settled_db a b acc s) (settled-Alike unique)) ∙ cimplied,
    )

-- recalculateBalances of an account that is there, whose rows imply a balance, succeeds without a
-- fault if no two rows share an id: the account gets that balance, and its stored balance then
-- agrees with its rows.
pub recalculate_balances-IsSettled :
    (a : ℕ) (b : ℤ) (acc : Account) (s : Db)
    → Accounts.find a s.accounts ≡ some acc
    → implied_balance a acc s ≡ ok b
    → HasUniqueIds s.transactions
    → let (r, _, s') = recalculate_balances a [] s in
      (r ≡ ok tt) × (Accounts.find a s'.accounts ≡ some (set_balance b acc)) × IsSettled a s'
recalculate_balances-IsSettled a b acc s found implied unique =
    rw (recalculate_run a b acc s found implied)
      (refl, settled_found a b acc s found implied, IsSettled-self a b acc s found implied unique)

-- recalculateBalances of an account that is there, whose rows imply a balance, leaves every other
-- account whose stored balance agrees with its rows so, without a fault and with unique row ids.
pub recalculate_balances-keeps_other :
    (a : ℕ) (b : ℤ) (acc : Account) (s : Db) (c : ℕ)
    → Accounts.find a s.accounts ≡ some acc
    → implied_balance a acc s ≡ ok b
    → HasUniqueIds s.transactions
    → c ≢ a
    → IsSettled c s
    → IsSettled c (recalculate_balances a [] s).2
recalculate_balances-keeps_other a b acc s c found implied unique other settled =
    rw (recalculate_run a b acc s found implied)
      (IsSettled-other a b acc s found implied c other unique settled)
