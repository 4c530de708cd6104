-- ===== src/TransactionService/Create/Balance.antt =====
-- The runs of CreateTransaction that reach their end, and the tables that they leave.
use orgfin_diploma.Repositories.Accounts.Lookup.{set_balance}
use orgfin_diploma.Repositories.Transactions
use orgfin_diploma.Repositories.Transactions.{stored}
use orgfin_diploma.Prelude.{
  ℕ, ◌≡◌, refl, Option, none, some, true, [], arith, false, ◌∷◌, ◌+◌, ◌≢◌, ne→==, ◌+ℤ◌,
}
use orgfin_diploma.Models.{User, Account, Db, Time, Transaction}
use orgfin_diploma.Exec.{ok, ◌>>=◌, Outcome}
use orgfin_diploma.Repositories.Users
use orgfin_diploma.Repositories.Accounts
use orgfin_diploma.Repositories.Lookups
use orgfin_diploma.TransactionService.{Input, Service, received}
use orgfin_diploma.TransactionService.Checks.{active_run, own_run, finish_run}
use orgfin_diploma.TransactionService.Create.{
  check_category, record_source, check_input, target_account, source_row, new_balance,
  create_transaction, record_target, target_row,
}

-- The user and the source account pass the checks.
pub record IsAllowed (u : ℕ) (i : Input) (s : Db) (acc : Account) : Type 0 where
  pub user : User
  pub known : Users.find u s.users ≡ some user
  pub active : user.is_active ≡ true
  pub found : Accounts.find i.account_id s.accounts ≡ some acc
  pub own : acc.user_id ≡ u

category_run : (c : Option ℕ) (s : Db) → check_category c [] s ≡ (ok tt, [], s)
unfolding check_category Lookups.get_category ◌>>=◌
category_run none s = refl
category_run (some c) s = ground arith

module _ (u : ℕ) (i : Input) (s : Db) {acc : Account} (allowed : IsAllowed u i s acc) where
  single_check_run : i.is_transfer ≡ false → check_input u i [] s ≡ (ok (acc, none), [], s)
  unfolding check_input target_account ◌>>=◌
  single_check_run single = rw (active_run u s allowed.user allowed.known allowed.active) (
      rw (own_run u i.account_id s acc allowed.found allowed.own)
        (rw single (rw (category_run i.category_id s))))

-- The tables after the source transaction has been recorded.
unfoldable pub source_db : ℕ → Input → Time → Account → Db → Db
source_db u i now acc s = record s {
  transactions = stored s (source_row u i now (new_balance acc i)) ∷ s.transactions;
  next_transaction_id = s.next_transaction_id + 1;
  accounts = Accounts.change i.account_id (set_balance (new_balance acc i)) s.accounts;
}

record_source_run :
    (u : ℕ) (i : Input) (now : Time) (acc : Account) (s : Db)
    → record_source u i now acc [] s
      ≡ (ok (stored s (source_row u i now (new_balance acc i))), [], source_db u i now acc s)
unfolding record_source Transactions.create Accounts.update_balance source_db ◌>>=◌
record_source_run u i now acc s = refl

-- What the run answers, and the two tables of money that it leaves.
abbrev pub Leaves : (Outcome Transaction) → Transaction → Db → Type 0
Leaves (r, fs, s') t db =
    (r ≡ ok t) × (s'.accounts ≡ db.accounts) × (s'.transactions ≡ db.transactions)

pub single_run :
    (svc : Service) (now : Time) (u : ℕ) (i : Input) (s : Db) {acc : Account}
    → IsAllowed u i s acc
    → i.is_transfer ≡ false
    → Leaves
        (create_transaction svc now u i [] s)
        (stored s (source_row u i now (new_balance acc i)))
        (source_db u i now acc s)
unfolding create_transaction record_target ◌>>=◌
single_run svc now u i s {acc} allowed single =
    rw (single_check_run u i s allowed single)
      (rw (record_source_run u i now acc s) (finish_run svc u i i.account_id _ _))

-- The tables after both sides of a transfer have been recorded.
unfoldable pub target_db : ℕ → Input → Time → Account → Account → Db → Db
target_db u i now acc target s =
    let source = stored s (source_row u i now (new_balance acc i)) in
    let s1 = source_db u i now acc s in
    let linked = stored s1 (target_row u i now target source.id) in
    record s1 {
      transactions =
          Transactions.change source.id (λ t. record t { linked_transaction_id = some linked.id })
            (linked ∷ s1.transactions);
      next_transaction_id = s1.next_transaction_id + 1;
      accounts = Accounts.change target.id (set_balance (target.balance +ℤ received i)) s1.accounts;
    }

-- The source row that CreateTransaction answers with after a transfer.
unfoldable pub linked_source : ℕ → Input → Time → Account → Db → Transaction
linked_source u i now acc s = record (stored s (source_row u i now (new_balance acc i))) {
  linked_transaction_id = some (s.next_transaction_id + 1);
}

record_target_run :
    (u : ℕ) (i : Input) (now : Time) (acc target : Account) (s : Db)
    → record_target u i now
        (stored s (source_row u i now (new_balance acc i)))
        (some target)
        []
        (source_db u i now acc s)
      ≡ (ok (linked_source u i now acc s), [], target_db u i now acc target s)
unfolding record_target Transactions.create Transactions.update_linked_id Accounts.update_balance
    source_db target_db linked_source ◌>>=◌
record_target_run u i now acc target s = refl

-- The other account of a transfer passes the checks.
pub record IsTransferTo (u : ℕ) (i : Input) (s : Db) (target : Account) : Type 0 where
  pub transfer : i.is_transfer ≡ true
  pub target_id : ℕ
  pub names : i.target_account_id ≡ some target_id
  pub other : target_id ≢ i.account_id
  pub found : Accounts.find target_id s.accounts ≡ some target
  pub own : target.user_id ≡ u

transfer_check_run :
    (u : ℕ) (i : Input) (s : Db) {acc target : Account}
    → IsAllowed u i s acc
    → IsTransferTo u i s target
    → check_input u i [] s ≡ (ok (acc, some target), [], s)
unfolding check_input target_account ◌>>=◌
transfer_check_run u i s {acc} {target} allowed to =
    rw (active_run u s allowed.user allowed.known allowed.active) (
      rw (own_run u i.account_id s acc allowed.found allowed.own) (
        rw (to.transfer, to.names)
          (rw (ne→== to.target_id i.account_id to.other) (
            rw (own_run u to.target_id s target to.found to.own)
              (rw (category_run i.category_id s))))))

pub transfer_run :
    (svc : Service) (now : Time) (u : ℕ) (i : Input) (s : Db) {acc target : Account}
    → IsAllowed u i s acc
    → IsTransferTo u i s target
    → Leaves
        (create_transaction svc now u i [] s)
        (linked_source u i now acc s)
        (target_db u i now acc target s)
unfolding create_transaction ◌>>=◌
transfer_run svc now u i s {acc} {target} allowed to = rw (transfer_check_run u i s allowed to) (
    rw (record_source_run u i now acc s)
      (rw (record_target_run u i now acc target s) (finish_run svc u i i.account_id _ _)))
