-- ===== src/AccountService/Adjust.antt =====
-- AdjustBalance of backend/internal/services/accounts/service.go, run without a fault.
use orgfin_diploma.TransactionService.Create.Settled.{for_recalc-own, for_recalc-IsSorted}
use orgfin_diploma.TransactionService.Checks.{active_run}
use orgfin_diploma.TransactionService.Recalc.{next_balance}
use orgfin_diploma.TransactionService.Recalc.Settled.{implied_balance, IsSettled}
use orgfin_diploma.Repositories.Transactions.{stored, of_account, date_lt, for_recalc, ordered}
use orgfin_diploma.TransactionService.Recalc.Insert.{StandsBefore, recalculate-insert, shift}
use orgfin_diploma.Exec.{◌>>=◌, ok}
use orgfin_diploma.AccountService.{held_account, adjust_balance, adjustment_row}
use orgfin_diploma.Models.{Db, Time, Transaction, Account, User}
use orgfin_diploma.Repositories.Users
use orgfin_diploma.Repositories.Accounts
use orgfin_diploma.Repositories.Transactions
use orgfin_diploma.Prelude.{
  ℕ, ℤ, pos, ◌+ℤ◌, ◌-ℤ◌, abs, ltb_ℤ, eqb_ℤ, int_laws, ◌≡◌, ◌≢◌, refl, ◌∙◌, All, true, false, Option,
  some, String, List, [], ◌∷◌, arith, if◌then◌else◌, ◌+◌, ◌<◌, eq→==, ==_refl, Bool-cases,
  All-map_proof, inl, inr,
}
use orgfin_diploma.Repositories.Accounts.Lookup.{set_balance, find-change_self}

-- The user and the account pass the checks.
pub record MayChange (u a : ℕ) (s : Db) (acc : Account) : Type 0 where
  pub user : User
  pub known : Users.find u s.users ≡ some user
  pub active : user.is_active ≡ true
  pub found : Accounts.find a s.accounts ≡ some acc
  pub own : acc.user_id ≡ u

pub held_run :
    (u a : ℕ) (s : Db) (acc : Account)
    → Accounts.find a s.accounts ≡ some acc
    → acc.user_id ≡ u
    → held_account u a [] s ≡ (ok acc, [], s)
unfolding held_account Accounts.get_by_id ◌>>=◌
held_run u a s acc found own = rw (found, eq→== acc.user_id u own)

-- A row that is not younger than `now`, with an id that is given away already.
abbrev pub IsPast : Time → Db → Transaction → Type 0
IsPast now s t = (t.id < s.next_transaction_id) × (date_lt (some now) t.date_time ≡ false)

pub past_ordered :
    (n t : Transaction) {now : Time}
    → n.date_time ≡ some now
    → t.id < n.id
    → date_lt (some now) t.date_time ≡ false
    → ordered n t ≡ false
unfolding ordered
past_ordered n t date id past = ground arith

differs : (b c : ℤ) → b ≢ c → eqb_ℤ (b -ℤ c) (pos 0) ≡ false
differs b c h = elim (Bool-cases (eqb_ℤ (b -ℤ c) (pos 0))) [
  | inl same ↦ absurd (h (grind int_laws))
  | inr other ↦ other
]

-- The amount of an adjustment, with its direction, is the difference of the balances.
pub signed :
    (b c : ℤ) → (if ltb_ℤ (pos 0) (b -ℤ c) then c +ℤ abs (b -ℤ c) else c -ℤ abs (b -ℤ c)) ≡ b
signed b c = grind int_laws

module _ (now : Time) (u a : ℕ) (b : ℤ) (notes : Option String) (acc : Account) (s : Db) where
  -- The row that is stored, and the tables afterwards.
  abbrev pub adjustment : Transaction
  adjustment = stored s (adjustment_row now u a acc.balance b notes)

  adjusted_db : Db
  adjusted_db = record s {
    transactions = adjustment ∷ s.transactions;
    next_transaction_id = s.next_transaction_id + 1;
    accounts = Accounts.change a (set_balance b) s.accounts;
  }

  adjust_run :
      MayChange u a s acc
      → b ≢ acc.balance
      → adjust_balance now a b notes u [] s ≡ (ok adjustment, [], adjusted_db)
  unfolding adjust_balance adjusted_db Transactions.create Accounts.update_balance ◌>>=◌
  adjust_run may new =
      rw (active_run u s may.user may.known may.active)
        (rw (held_run u a s acc may.found may.own) (rw (differs b acc.balance new)))

  adjustment-own : of_account a adjustment ≡ true
  unfolding adjustment_row
  adjustment-own = rw (==_refl a)

  adjustment-next : (c : ℤ) → next_balance c adjustment ≡ ok b
  unfolding adjustment_row next_balance
  adjustment-next c = refl

  past-StandsBefore :
      (ts : List Transaction) → All (IsPast now s) ts → All (StandsBefore adjustment) ts
  unfolding adjustment_row
  past-StandsBefore ts h =
      All-map_proof (λ t past _. past_ordered adjustment t refl past.0 past.1) ts h

  adjusted_rows : adjusted_db.transactions ≡ adjustment ∷ s.transactions
  unfolding adjusted_db
  adjusted_rows = refl

  adjusted_found :
      Accounts.find a s.accounts ≡ some acc
      → Accounts.find a adjusted_db.accounts ≡ some (set_balance b acc)
  unfolding adjusted_db
  adjusted_found found = find-change_self a b s.accounts found

  adjusted_implied :
      (c : ℤ)
      → implied_balance a acc s ≡ ok c
      → All (IsPast now s) (for_recalc a s.transactions)
      → implied_balance a acc adjusted_db ≡ ok b
  unfolding adjusted_db
  adjusted_implied c implied past = rw (for_recalc-own a adjustment s.transactions adjustment-own) (
      recalculate-insert adjustment acc.initial_balance c _ (for_recalc-IsSorted a s.transactions)
        (past-StandsBefore _ past) implied
      ∙ adjustment-next c)

-- AdjustBalance to a new balance, by an active user on an own account whose rows imply some
-- balance and are no younger than the clock, succeeds without a fault: the account has the new
-- balance, which agrees with its rows even if the old one did not.
pub adjust_balance-IsSettled :
    (now : Time) (u a : ℕ) (b c : ℤ) (notes : Option String) (acc : Account) (s : Db)
    → MayChange u a s acc
    → b ≢ acc.balance
    → implied_balance a acc s ≡ ok c
    → All (IsPast now s) (for_recalc a s.transactions)
    → let (r, _, s') = adjust_balance now a b notes u [] s in
      (r ≡ ok (adjustment now u a b notes acc s))
      × (Accounts.find a s'.accounts ≡ some (set_balance b acc))
      × IsSettled a s'
adjust_balance-IsSettled now u a b c notes acc s may new implied past =
    rw (adjust_run now u a b notes acc s may new) (
      refl,
      adjusted_found now u a b notes acc s may.found,
      (
        set_balance b acc,
        adjusted_found now u a b notes acc s may.found,
        adjusted_implied now u a b notes acc s c implied past,
      ),
    )

adjustment-shift :
    (now : Time) (u a : ℕ) (b : ℤ) (notes : Option String) (acc : Account) (s : Db)
    → shift (adjustment now u a b notes acc s) acc.balance ≡ b
unfolding adjustment_row
adjustment-shift now u a b notes acc s = signed b acc.balance

-- AdjustBalance to a new balance, by an active user on an own account, stores without a fault one
-- row: its amount, taken as income or as an expense as the row says, is the step from the old
-- balance to the new one.
pub adjust_balance-shift :
    (now : Time) (u a : ℕ) (b : ℤ) (notes : Option String) (acc : Account) (s : Db)
    → MayChange u a s acc
    → b ≢ acc.balance
    → let (r, _, s') = adjust_balance now a b notes u [] s in
      (t : Transaction) × (r ≡ ok t)
      × (s'.transactions ≡ t ∷ s.transactions)
      × (shift t acc.balance ≡ b)
adjust_balance-shift now u a b notes acc s may new = rw (adjust_run now u a b notes acc s may new) (
  adjustment now u a b notes acc s,
  refl,
  adjusted_rows now u a b notes acc s,
  adjustment-shift now u a b notes acc s,
)
