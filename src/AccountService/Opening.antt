-- ===== src/AccountService/Opening.antt =====
-- CreateAccount of backend/internal/services/accounts/service.go, run without a
-- fault: the initial balance and the stored balance.
use orgfin_diploma.Repositories.Lookups.{find_currency}
use orgfin_diploma.TransactionService.Recalc.Rows.{HasUniqueIds}
use orgfin_diploma.TransactionService.Checks.{active_run}
use orgfin_diploma.TransactionService.Recalc.Settled.{
  IsSettled, implied_balance, recalculate_run, settled_found, IsSettled-self, IsSettled-other,
}
use orgfin_diploma.TransactionService.Recalc.{recalculate_from_transactions, recalculate_balances}
use orgfin_diploma.Exec.{◌>>=◌, ok}
use orgfin_diploma.AccountService.{check_kind, AccountInput, opened_row, create_account}
use orgfin_diploma.Models.{Time, Db, Account, Transaction, User, Currency}
use orgfin_diploma.Repositories.Transactions.{for_recalc, sort, of_account}
use orgfin_diploma.Repositories.Users
use orgfin_diploma.Repositories.Accounts
use orgfin_diploma.Repositories.Lookups
use orgfin_diploma.Prelude.{
  ℕ, ◌≡◌, ◌≢◌, refl, All, true, contains, some, List, [], ◌∷◌, ◌+◌, ==_refl, keep, ne→==, sym,
}

-- The currency and the account type that an input names are there.
pub record HasKind (c t : ℕ) (s : Db) : Type 0 where
  pub found : Currency
  pub currency : find_currency c s.currencies ≡ some found
  pub account_type : contains t s.account_types ≡ true

pub kind_run : (c t : ℕ) (s : Db) → HasKind c t s → check_kind c t [] s ≡ (ok tt, [], s)
unfolding check_kind Lookups.get_currency Lookups.get_account_type ◌>>=◌
kind_run c t s kind = rw (kind.currency, kind.account_type)

unused_rows :
    (a : ℕ) (ts : List Transaction) → All (λ t. t.account_id ≢ a) ts → for_recalc a ts ≡ []
unfolding for_recalc sort
unused_rows a ts h = rw (none_kept ts h)
  where
    none_kept :
        (ts : List Transaction) → All (λ t. t.account_id ≢ a) ts → keep (of_account a) ts ≡ []
    none_kept [] h = refl
    none_kept (t ∷ ts) h = rw (ne→== t.account_id a h.0, none_kept ts h.1)

module _ (now : Time) (u : ℕ) (i : AccountInput) (s : Db) where
  abbrev pub opened : Account
  opened = record (opened_row now u i) { id = s.next_account_id }

  opened_db : Db
  opened_db = record s { accounts = opened ∷ s.accounts; next_account_id = s.next_account_id + 1 }

  create_run :
      {user : User}
      → Users.find u s.users ≡ some user
      → user.is_active ≡ true
      → HasKind i.currency_id i.account_type_id s
      → create_account now u i [] s ≡ (ok opened, [], opened_db)
  unfolding create_account Accounts.create opened_db ◌>>=◌
  create_run {user} known active kind =
      rw (active_run u s user known active) (rw (kind_run i.currency_id i.account_type_id s kind))

  opened_found : Accounts.find s.next_account_id opened_db.accounts ≡ some opened
  unfolding opened_db opened_row Accounts.find
  opened_found = rw (==_refl s.next_account_id)

  -- Without rows, the balance is the initial one, whatever was stored as the balance.
  opened_implied :
      All (λ t. t.account_id ≢ s.next_account_id) s.transactions
      → implied_balance s.next_account_id opened opened_db ≡ ok i.initial_balance
  unfolding opened_db opened_row recalculate_from_transactions
  opened_implied unused = rw (unused_rows s.next_account_id s.transactions unused) refl

  opened-keeps_other : (c : ℕ) → c ≢ s.next_account_id → IsSettled c s → IsSettled c opened_db
  unfolding opened_db Accounts.find
  opened-keeps_other c other (acc, found, implied) =
      (acc, rw (ne→== s.next_account_id c (λ e. other (sym e))) found, implied)

-- CreateAccount by an active user, with a currency and a type that are there, and then
-- recalculateBalances of the new account both succeed without a fault, if no row names the new id yet
-- and no two rows share an id. The account is found with the balance of the input before the
-- recalculation, and with the initial balance of the input, which need not be the same, after it.
-- It then agrees with its rows, and any other account that agreed with its rows does so throughout.
pub create_account-recalculates :
    (now : Time) (u : ℕ) (i : AccountInput) (s : Db) {user : User} (c : ℕ)
    → Users.find u s.users ≡ some user
    → user.is_active ≡ true
    → HasKind i.currency_id i.account_type_id s
    → All (λ t. t.account_id ≢ s.next_account_id) s.transactions
    → HasUniqueIds s.transactions
    → c ≢ s.next_account_id
    → IsSettled c s
    → let (r, _, s1) = create_account now u i [] s in
      let (r', _, s2) = recalculate_balances s.next_account_id [] s1 in
      ((acc : Account) × (r ≡ ok acc)
        × (acc.user_id ≡ u)
        × (acc.balance ≡ i.balance)
        × (Accounts.find s.next_account_id s1.accounts ≡ some acc)
        × (r' ≡ ok tt)
        × (Accounts.find s.next_account_id s2.accounts
            ≡ some (record acc { balance = i.initial_balance })))
      × IsSettled s.next_account_id s2
      × IsSettled c s1
      × IsSettled c s2
unfolding opened_row opened_db
create_account-recalculates now u i s c known active kind unused unique other settled =
    let s1 = opened_db now u i s in
    let acc = opened now u i s in
    let a = s.next_account_id in
    let found = opened_found now u i s in
    let implied = opened_implied now u i s unused in
    let kept = opened-keeps_other now u i s c other settled in
    rw (create_run now u i s known active kind) (
      rw (recalculate_run a i.initial_balance acc s1 found implied) (
        (
          acc,
          refl,
          refl,
          refl,
          found,
          refl,
          settled_found a i.initial_balance acc s1 found implied,
        ),
        IsSettled-self a i.initial_balance acc s1 found implied unique,
        kept,
        IsSettled-other a i.initial_balance acc s1 found implied c other unique kept,
      ))
