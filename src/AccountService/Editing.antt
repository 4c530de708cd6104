-- ===== src/AccountService/Editing.antt =====
-- UpdateAccount of backend/internal/services/accounts/service.go, run without a
-- fault: the initial balance and the stored balance.
use orgfin_diploma.AccountService.Opening.{HasKind, kind_run}
use orgfin_diploma.Repositories.Accounts.Lookup.{find-change_kept, find_id}
use orgfin_diploma.AccountService.Adjust.{MayChange, held_run}
use orgfin_diploma.TransactionService.Recalc.Insert.{shift, next_balance-regular}
use orgfin_diploma.TransactionService.Checks.{active_run}
use orgfin_diploma.TransactionService.Recalc.Settled.{IsSettled, implied_balance, IsSettled-found}
use orgfin_diploma.TransactionService.Recalc.{recalculate_from_transactions}
use orgfin_diploma.Exec.{◌>>=◌, ok, Outcome}
use orgfin_diploma.AccountService.{UpdateInput, update_account, edited_row}
use orgfin_diploma.Models.{Db, Account, Transaction}
use orgfin_diploma.Repositories.Transactions.{for_recalc}
use orgfin_diploma.Repositories.Accounts
use orgfin_diploma.Prelude.{
  ◌+ℤ◌, ap, ℕ, ◌≡◌, ◌≢◌, refl, All, some, List, [], ◌∷◌, ℤ, false, sym, int_laws, ◌∙◌, ◌-ℤ◌,
}

-- The table after UpdateAccount: the columns of the statement, in the row of the account.
abbrev set_edited : Account → Account → Account
set_edited b a = record a {
  name = b.name;
  account_type_id = b.account_type_id;
  currency_id = b.currency_id;
  initial_balance = b.initial_balance;
  comment = b.comment;
  show_in_reports = b.show_in_reports;
  opening_date = b.opening_date;
  is_hidden = b.is_hidden;
  credit_limit = b.credit_limit;
}

-- The recalculated balance of rows with no adjustment moves with the initial balance.
shift-translate : (t : Transaction) (b d : ℤ) → shift t (b +ℤ d) ≡ shift t b +ℤ d
shift-translate t b d = grind int_laws

recalculate-translate :
    (d b c : ℤ) (ts : List Transaction)
    → All (λ t. t.is_adjustment ≡ false) ts
    → recalculate_from_transactions b ts ≡ ok c
    → recalculate_from_transactions (b +ℤ d) ts ≡ ok (c +ℤ d)
unfolding recalculate_from_transactions
recalculate-translate d b c [] h e = cc
recalculate-translate d b c (t ∷ ts) h e = rw (next_balance-regular (b +ℤ d) t h.0) (
    rw (shift-translate t b d)
      (recalculate-translate d (shift t b) c ts h.1 (rw (next_balance-regular b t h.0) at e)))

moved_back : (x y d : ℤ) → x +ℤ d ≡ x → y +ℤ d ≡ y
moved_back x y d h = grind int_laws

ok_injective : {b c : ℤ} → ok b ≡ ok c → b ≡ c
ok_injective h = cc

step_to : (x y : ℤ) → y +ℤ (x -ℤ y) ≡ x
step_to x y = grind int_laws

-- Two initial balances from which the same rows lead to the same balance are equal.
moved_initial :
    (x y b : ℤ) (ts : List Transaction)
    → All (λ t. t.is_adjustment ≡ false) ts
    → recalculate_from_transactions y ts ≡ ok b
    → recalculate_from_transactions x ts ≡ ok b
    → x ≡ y
moved_initial x y b ts regular from_y from_x =
    let moved = recalculate-translate (x -ℤ y) y b ts regular from_y in
    let same : b +ℤ (x -ℤ y) ≡ b = ok_injective (sym moved ∙ rw (step_to x y) from_x) in
    sym (step_to x y) ∙ moved_back b y (x -ℤ y) same

module _ (a u : ℕ) (i : UpdateInput) (s : Db) {acc : Account} (may : MayChange u a s acc) where
  edited_db : Db
  edited_db = record s { accounts = Accounts.change a (set_edited (edited_row i acc)) s.accounts }

  abbrev edited_outcome : ℕ → Outcome Account
  edited_outcome j = (
    ok (edited_row i acc),
    [],
    record s { accounts = Accounts.change j (set_edited (edited_row i acc)) s.accounts },
  )

  edit_run :
      HasKind i.currency_id i.account_type_id s
      → update_account a u i [] s ≡ (ok (edited_row i acc), [], edited_db)
  unfolding update_account Accounts.update edited_db ◌>>=◌
  edit_run kind = rw (active_run u s may.user may.known may.active) (
      rw (held_run u a s acc may.found may.own) (
        rw (kind_run i.currency_id i.account_type_id s kind)
          (ap edited_outcome (find_id a s.accounts may.found))))

  edited_found : Accounts.find a edited_db.accounts ≡ some (edited_row i acc)
  unfolding edited_db edited_row
  edited_found = find-change_kept a _ s.accounts (λ _. refl) may.found

  edited_rows : edited_db.transactions ≡ s.transactions
  unfolding edited_db
  edited_rows = refl

  edited_initial : (edited_row i acc).initial_balance ≡ i.initial_balance
  unfolding edited_row
  edited_initial = refl

  edited_balance : (edited_row i acc).balance ≡ acc.balance
  unfolding edited_row
  edited_balance = refl

  edited_implied :
      implied_balance a (edited_row i acc) edited_db
      ≡ recalculate_from_transactions i.initial_balance (for_recalc a s.transactions)
  edited_implied = rw (edited_rows, edited_initial)

-- UpdateAccount by an active user of an own account, with a currency and a type that are there,
-- which keeps the initial balance, succeeds without a fault, and an account whose stored balance
-- agrees with its rows stays so.
pub update_account-IsSettled :
    (a u : ℕ) (i : UpdateInput) (s : Db) {acc : Account}
    → MayChange u a s acc
    → HasKind i.currency_id i.account_type_id s
    → i.initial_balance ≡ acc.initial_balance
    → implied_balance a acc s ≡ ok acc.balance
    → let (r, _, s') = update_account a u i [] s in (r ≡ ok (edited_row i acc)) × IsSettled a s'
update_account-IsSettled a u i s {acc} may kind same settled = rw (edit_run a u i s may kind) (
  refl,
  (
    edited_row i acc,
    edited_found a u i s may,
    edited_implied a u i s may
        ∙ ap (λ x. recalculate_from_transactions x (for_recalc a s.transactions)) same
        ∙ settled
        ∙ ap ok (sym (edited_balance a u i s may)),
  ),
)

-- UpdateAccount that changes the initial balance of an own account that has no adjustment and
-- whose stored balance agrees with its rows, by an active user, succeeds without a fault: the
-- stored balance stays, and does not agree with the account's rows any more.
pub update_account-unsettles :
    (a u : ℕ) (i : UpdateInput) (s : Db) {acc : Account}
    → MayChange u a s acc
    → HasKind i.currency_id i.account_type_id s
    → i.initial_balance ≢ acc.initial_balance
    → All (λ t. t.is_adjustment ≡ false) (for_recalc a s.transactions)
    → implied_balance a acc s ≡ ok acc.balance
    → let (r, _, s') = update_account a u i [] s in
      (r ≡ ok (edited_row i acc))
      × (Accounts.find a s'.accounts ≡ some (edited_row i acc))
      × ((edited_row i acc).balance ≡ acc.balance)
      × ¬ IsSettled a s'
update_account-unsettles a u i s {acc} may kind new regular settled =
    rw (edit_run a u i s may kind) (
      refl,
      edited_found a u i s may,
      edited_balance a u i s may,
      λ settled'. new (
          moved_initial i.initial_balance acc.initial_balance acc.balance
            (for_recalc a s.transactions) regular settled
            (sym (edited_implied a u i s may)
              ∙ IsSettled-found a (edited_db a u i s may) (edited_found a u i s may) settled'
              ∙ ap ok (edited_balance a u i s may))),
    )
