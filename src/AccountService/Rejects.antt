-- ===== src/AccountService/Rejects.antt =====
-- The errors of backend/internal/services/accounts/service.go.
use orgfin_diploma.TransactionService.Checks.{checks, IsReadOnly-active_user, best_effort}
use orgfin_diploma.Exec.{Faults, Error, err}
use orgfin_diploma.Models.{Time, Db}
use orgfin_diploma.Exec.Rules.{IsReadOnly}
use orgfin_diploma.Exec.Failing.{RejectsEarly-checked, RejectsEarly-bind}
use orgfin_diploma.AccountService.{
  adjust_balance, check_kind, held_account, update_account, UpdateInput,
}
use orgfin_diploma.Repositories.Accounts
use orgfin_diploma.Repositories.Transactions
use orgfin_diploma.Repositories.Lookups
use orgfin_diploma.Prelude.{ℕ, ℤ, ◌≡◌, ◌≢◌, Option, String}

IsReadOnly-check_kind : (c t : ℕ) → IsReadOnly (check_kind c t)
unfolding check_kind Lookups.get_currency Lookups.get_account_type
IsReadOnly-check_kind c t = search checks

IsReadOnly-held_account : (u a : ℕ) → IsReadOnly (held_account u a)
unfolding held_account Accounts.get_by_id
IsReadOnly-held_account u a = search checks

-- Whatever calls of the database fail: if AdjustBalance answers with an error that is not the
-- database's own (an unknown or inactive user, an unknown or foreign account, or the balance that
-- the account has already), then the database is as it was before.
pub adjust_balance-rejects :
    (now : Time) (a : ℕ) (b : ℤ) (notes : Option String) (u : ℕ) (fs : Faults) (s : Db) (e : Error)
    → (adjust_balance now a b notes u fs s).0 ≡ err e
    → e ≢ Error.db_failure
    → (adjust_balance now a b notes u fs s).2 ≡ s
unfolding adjust_balance Transactions.create Accounts.update_balance
adjust_balance-rejects now a b notes u =
    (RejectsEarly-checked _ _ (IsReadOnly-active_user u) (λ _.
      RejectsEarly-checked _ _ (IsReadOnly-held_account u a)
        (λ acc. RejectsEarly-bind _ _ (search checks) (λ _. search best_effort depth 12)))).at

-- Whatever calls of the database fail: if UpdateAccount answers with an error that is not the
-- database's own, then the database is as it was before.
pub update_account-rejects :
    (a u : ℕ) (i : UpdateInput) (fs : Faults) (s : Db) (e : Error)
    → (update_account a u i fs s).0 ≡ err e
    → e ≢ Error.db_failure
    → (update_account a u i fs s).2 ≡ s
unfolding update_account Accounts.update
update_account-rejects a u i =
    (RejectsEarly-checked _ _ (IsReadOnly-active_user u) (λ _.
      RejectsEarly-checked _ _ (IsReadOnly-held_account u a) (λ acc.
        RejectsEarly-bind _ _ (IsReadOnly-check_kind i.currency_id i.account_type_id)
          (λ _. search best_effort depth 12)))).at
