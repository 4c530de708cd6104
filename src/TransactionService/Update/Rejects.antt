-- ===== src/TransactionService/Update/Rejects.antt =====
-- UpdateTransaction checks everything before it writes, the ownership of a new target account of
-- a transfer included.
use orgfin_diploma.Prelude.{ℕ, ◌≡◌, ◌≢◌, Bool, true, false, Option, none, some, List, [], ◌∷◌}
use orgfin_diploma.Models.{Time, Transaction, Db}
use orgfin_diploma.Exec.{Error, err, Faults}
use orgfin_diploma.Exec.Rules.{IsReadOnly}
use orgfin_diploma.Exec.Failing.{
  FailsOnFault, RejectsEarly, RejectsEarly-bind, RejectsEarly-checked, RejectsEarly-then,
  RejectsEarly-of_fails,
}
use orgfin_diploma.Repositories.Transactions
use orgfin_diploma.TransactionService.{Service, Input}
use orgfin_diploma.TransactionService.Checks.{checks, best_effort, IsReadOnly-own_account}
use orgfin_diploma.TransactionService.Delete.Rejects.{IsReadOnly-own_transaction}
use orgfin_diploma.TransactionService.Update.{
  fetch_linked, check_update, unlink, relink, link, change_links, recalculate_all, enqueue_all,
  update_transaction,
}

IsReadOnly-fetch_linked : (l : Option ℕ) → IsReadOnly (fetch_linked l)
unfolding fetch_linked Transactions.get_by_id
IsReadOnly-fetch_linked none = search checks
IsReadOnly-fetch_linked (some l) = search checks

IsReadOnly-check_update : (u : ℕ) (i : Input) (t : ℕ) → IsReadOnly (check_update u i t)
unfolding check_update
IsReadOnly-check_update u i t =
    search (checks, IsReadOnly-own_transaction, IsReadOnly-fetch_linked) depth 12

module _ (u : ℕ) (i : Input) (now : Time) (tx : Transaction) (accounts : List ℕ) where
  FailsOnFault-unlink : (l : Option Transaction) → FailsOnFault (unlink tx accounts l)
  unfolding unlink
  FailsOnFault-unlink none = search best_effort
  FailsOnFault-unlink (some l) = search best_effort

  RejectsEarly-relink : (l : Option Transaction) → RejectsEarly (relink u i now tx accounts l)
  unfolding relink Transactions.update
  RejectsEarly-relink none = RejectsEarly-of_fails (search best_effort)
  RejectsEarly-relink (some l) =
      RejectsEarly-bind _ _ (IsReadOnly-own_account u _) (λ a. search best_effort)

  RejectsEarly-link : (t : Option ℕ) → RejectsEarly (link u i now tx accounts t)
  unfolding link Transactions.create
  RejectsEarly-link none = RejectsEarly-of_fails (search best_effort)
  RejectsEarly-link (some t) =
      RejectsEarly-bind _ _ (IsReadOnly-own_account u t) (λ a. search best_effort)

  RejectsEarly-change_links :
      (was is_now : Bool) (l : Option Transaction)
      → RejectsEarly (change_links u i now was is_now tx accounts l)
  unfolding change_links
  RejectsEarly-change_links true false l = RejectsEarly-of_fails (FailsOnFault-unlink l)
  RejectsEarly-change_links true true l = RejectsEarly-relink l
  RejectsEarly-change_links false true l = RejectsEarly-link i.target_account_id
  RejectsEarly-change_links false false l = RejectsEarly-of_fails (search best_effort)

FailsOnFault-recalculate_all : (as_list : List ℕ) → FailsOnFault (recalculate_all as_list)
unfolding recalculate_all
FailsOnFault-recalculate_all [] = search best_effort
FailsOnFault-recalculate_all (a ∷ rest) =
    let ih = FailsOnFault-recalculate_all rest in search best_effort

FailsOnFault-enqueue_all :
    (svc : Service) (u : ℕ) (as_list : List ℕ) → FailsOnFault (enqueue_all svc u as_list)
unfolding enqueue_all
FailsOnFault-enqueue_all svc u [] = search best_effort
FailsOnFault-enqueue_all svc u (a ∷ rest) =
    let ih = FailsOnFault-enqueue_all svc u rest in search best_effort

-- Whatever calls of the database fail, and in whatever order the accounts are visited: if
-- UpdateTransaction answers with an error that is not the database's own, then the database is as
-- it was before.
pub update_transaction-rejects :
    (order₁ order₂ : List ℕ → List ℕ) (svc : Service) (now : Time) (u : ℕ) (i : Input) (t : ℕ)
    (fs : Faults) (s : Db) (e : Error)
    → (update_transaction order₁ order₂ svc now u i t fs s).0 ≡ err e
    → e ≢ Error.db_failure
    → (update_transaction order₁ order₂ svc now u i t fs s).2 ≡ s
unfolding update_transaction Transactions.update
update_transaction-rejects order₁ order₂ svc now u i t =
    (RejectsEarly-checked _ _ (IsReadOnly-check_update u i t) (λ (existing, linked).
      RejectsEarly-then _ _ (RejectsEarly-change_links u i now _ _ existing.is_transfer _ linked)
        (λ (tx, affected).
          search (best_effort, FailsOnFault-recalculate_all, FailsOnFault-enqueue_all) depth
            12))).at
