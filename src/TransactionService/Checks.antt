-- ===== src/TransactionService/Checks.antt =====
-- The steps that the methods share: the checks only read, and the tasks that are enqueued and
-- the templates that are kept never make a method fail.
use orgfin_diploma.Models.{Db, Account, User, Transaction}
use orgfin_diploma.Exec.{◌>>=◌, ok, ◌>>◌, pure}
use orgfin_diploma.Prelude.{ℕ, ◌≡◌, some, true, [], arith, eq→==}
use orgfin_diploma.Exec.Rules.{IsReadOnly, read_only}
use orgfin_diploma.Exec.Failing.{FailsOnFault, fails_on_fault}
use orgfin_diploma.Repositories.Users
use orgfin_diploma.Repositories.Accounts
use orgfin_diploma.Repositories.Templates as TemplateRows
use orgfin_diploma.TransactionService.{
  Service, Input, active_user, own_account, create_template, enqueue_budget_update,
}

pub IsReadOnly-active_user : (u : ℕ) → IsReadOnly (active_user u)
unfolding active_user Users.get_by_id
IsReadOnly-active_user u = search read_only

pub IsReadOnly-own_account : (u a : ℕ) → IsReadOnly (own_account u a)
unfolding own_account Accounts.get_by_id
IsReadOnly-own_account u a = search read_only

pub FailsOnFault-create_template : (u : ℕ) (i : Input) → FailsOnFault (create_template u i)
unfolding create_template
FailsOnFault-create_template u i = search fails_on_fault

pub FailsOnFault-enqueue : (svc : Service) (u a : ℕ) → FailsOnFault (enqueue_budget_update svc u a)
unfolding enqueue_budget_update
FailsOnFault-enqueue svc u a = search fails_on_fault

pub ruleset checks = (read_only, IsReadOnly-active_user, IsReadOnly-own_account)

pub ruleset best_effort = (fails_on_fault, FailsOnFault-create_template, FailsOnFault-enqueue)

-- A check that passes, without a fault.
pub active_run :
    (u : ℕ) (s : Db) (user : User)
    → Users.find u s.users ≡ some user
    → user.is_active ≡ true
    → active_user u [] s ≡ (ok user, [], s)
unfolding active_user Users.get_by_id ◌>>=◌
active_run u s user known active = rw (known, active)

pub own_run :
    (u a : ℕ) (s : Db) (acc : Account)
    → Accounts.find a s.accounts ≡ some acc
    → acc.user_id ≡ u
    → own_account u a [] s ≡ (ok acc, [], s)
unfolding own_account Accounts.get_by_id ◌>>=◌
own_run u a s acc found own = rw (found, eq→== acc.user_id u own)

-- The last steps of CreateTransaction, without a fault: they leave the money alone.
pub finish_run :
    (svc : Service) (u : ℕ) (i : Input) (a : ℕ) (t : Transaction) (s : Db)
    → let (r, fs, s') = (create_template u i >> (enqueue_budget_update svc u a >> pure t)) [] s in
      (r ≡ ok t) × (s'.accounts ≡ s.accounts) × (s'.transactions ≡ s.transactions)
unfolding create_template enqueue_budget_update TemplateRows.create ◌>>=◌
finish_run svc u i a t s = ground arith
