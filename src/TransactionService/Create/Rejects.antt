-- ===== src/TransactionService/Create/Rejects.antt =====
-- CreateTransaction checks everything before it writes.
use orgfin_diploma.Prelude.{ℕ, ◌≡◌, ◌≢◌, Option, none, some, true, false, Bool}
use orgfin_diploma.Models.{Time, Account, Transaction, Db}
use orgfin_diploma.Exec.{Error, err, Faults}
use orgfin_diploma.Exec.Rules.{IsReadOnly}
use orgfin_diploma.Exec.Failing.{FailsOnFault, RejectsEarly-bind}
use orgfin_diploma.Repositories.Accounts
use orgfin_diploma.Repositories.Transactions
use orgfin_diploma.Repositories.Lookups
use orgfin_diploma.TransactionService.{Service, Input}
use orgfin_diploma.TransactionService.Checks.{checks, best_effort}
use orgfin_diploma.TransactionService.Create.{
  target_account, check_category, check_input, record_source, record_target, create_transaction,
}

IsReadOnly-target_account : (u : ℕ) (b : Bool) (t : Option ℕ) → IsReadOnly (target_account u b t)
unfolding target_account
IsReadOnly-target_account u true (some t) = search checks
IsReadOnly-target_account u true none = search checks
IsReadOnly-target_account u false _ = search checks

IsReadOnly-check_category : (c : Option ℕ) → IsReadOnly (check_category c)
unfolding check_category Lookups.get_category
IsReadOnly-check_category none = search checks
IsReadOnly-check_category (some c) = search checks

IsReadOnly-check_input : (u : ℕ) (i : Input) → IsReadOnly (check_input u i)
unfolding check_input
IsReadOnly-check_input u i =
    search (checks, IsReadOnly-target_account, IsReadOnly-check_category) depth 12

FailsOnFault-record_source :
    (u : ℕ) (i : Input) (now : Time) (a : Account) → FailsOnFault (record_source u i now a)
unfolding record_source Transactions.create Accounts.update_balance
FailsOnFault-record_source u i now a = search best_effort

FailsOnFault-record_target :
    (u : ℕ) (i : Input) (now : Time) (t : Transaction) (a : Option Account)
    → FailsOnFault (record_target u i now t a)
unfolding record_target Transactions.create Accounts.update_balance Transactions.update_linked_id
FailsOnFault-record_target u i now t none = search best_effort
FailsOnFault-record_target u i now t (some a) = search best_effort depth 12

-- Whatever calls of the database fail: if CreateTransaction answers with an error that is not the
-- database's own (an unknown or inactive user, an unknown or foreign account, a transfer from an
-- account to itself), then the database is as it was before.
pub create_transaction-rejects :
    (svc : Service) (now : Time) (u : ℕ) (i : Input) (fs : Faults) (s : Db) (e : Error)
    → (create_transaction svc now u i fs s).0 ≡ err e
    → e ≢ Error.db_failure
    → (create_transaction svc now u i fs s).2 ≡ s
unfolding create_transaction
create_transaction-rejects svc now u i =
    (RejectsEarly-bind (check_input u i) _ (IsReadOnly-check_input u i) (λ found.
      search (best_effort, FailsOnFault-record_source, FailsOnFault-record_target) depth 12)).at
