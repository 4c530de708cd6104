-- ===== src/AccountService/Removal.antt =====
-- DeleteAccount of backend/internal/services/accounts/service.go, run without a fault.
use orgfin_diploma.TransactionService.Checks.{active_run}
use orgfin_diploma.Exec.{ok, ◌>>=◌}
use orgfin_diploma.AccountService.{delete_account}
use orgfin_diploma.AccountService.Adjust.{MayChange, held_run}
use orgfin_diploma.Repositories.Accounts
use orgfin_diploma.Repositories.Accounts.{find, change}
use orgfin_diploma.Prelude.{
  ℕ, ◌≡◌, ◌≢◌, refl, none, true, List, [], ◌∷◌, arith, Bool-cases, inl, inr, ◌==◌,
}
use orgfin_diploma.Models.{Account, Db}

abbrev set_deleted : Account → Account
set_deleted a = record a { is_deleted = true }

find-change_gone : (i : ℕ) (rows : List Account) → find i (change i set_deleted rows) ≡ none
unfolding find change
find-change_gone i [] = refl
find-change_gone i (a ∷ rows) = elim (Bool-cases (a.id == i)) [
  | inl same ↦ rw (same, same) (find-change_gone i rows)
  | inr other ↦ rw (other, other) (find-change_gone i rows)
]

find-change_apart :
    (i j : ℕ) (rows : List Account) → j ≢ i → find j (change i set_deleted rows) ≡ find j rows
unfolding find change
find-change_apart i j [] h = refl
find-change_apart i j (a ∷ rows) h = ground (arith, find-change_apart i j rows h)

module _ (u a : ℕ) (s : Db) {acc : Account} (may : MayChange u a s acc) where
  removed_db : Db
  removed_db = record s { accounts = change a set_deleted s.accounts }

  remove_run : delete_account a u [] s ≡ (ok tt, [], removed_db)
  unfolding delete_account Accounts.soft_delete removed_db ◌>>=◌
  remove_run =
      rw (active_run u s may.user may.known may.active) (rw (held_run u a s acc may.found may.own))

  removed_gone : find a removed_db.accounts ≡ none
  unfolding removed_db
  removed_gone = find-change_gone a s.accounts

  removed_others : (c : ℕ) → c ≢ a → find c removed_db.accounts ≡ find c s.accounts
  unfolding removed_db
  removed_others c h = find-change_apart a c s.accounts h

  removed_rows : removed_db.transactions ≡ s.transactions
  unfolding removed_db
  removed_rows = refl

-- DeleteAccount of an own account by an active user succeeds without a fault: the account is not
-- found any more, every other account is found as before, and no row of the table of transactions
-- changes.
pub delete_account-removes :
    (u a : ℕ) (s : Db) {acc : Account}
    → MayChange u a s acc
    → (c : ℕ) → c ≢ a
    → let (r, _, s') = delete_account a u [] s in
      (r ≡ ok tt)
      × (find a s'.accounts ≡ none)
      × (find c s'.accounts ≡ find c s.accounts)
      × (s'.transactions ≡ s.transactions)
delete_account-removes u a s may c other =
    rw (remove_run u a s may)
      (refl, removed_gone u a s may, removed_others u a s may c other, removed_rows u a s may)
