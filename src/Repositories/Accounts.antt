-- ===== src/Repositories/Accounts.antt =====
-- backend/internal/repositories/account.go
pub mod Lookup
pub mod Sum
use orgfin_diploma.Prelude.{
  ℕ, ◌+◌, ℤ, Bool, true, not, ◌&&◌, Option, none, some, List, [], ◌∷◌, ◌==◌, if◌then◌else◌,
}
use orgfin_diploma.Models.{Time, Account}
use orgfin_diploma.Exec.{Exec, query, returning, statement, row_of}

-- WHERE a.id = i AND a.is_deleted = false
unfoldable pub find : ℕ → List Account → Option Account
find i [] = none
find i (a ∷ rest) = if a.id == i && not a.is_deleted then some a else find i rest

unfoldable pub get_by_id : ℕ → Exec Account
get_by_id i = query (λ s. row_of (find i s.accounts))

-- UPDATE accounts SET … WHERE id = i
unfoldable pub change : ℕ → (Account → Account) → List Account → List Account
change i f [] = []
change i f (a ∷ rest) = (if a.id == i then f a else a) ∷ change i f rest

unfoldable pub update_balance : ℕ → ℤ → Exec (Unit {0})
update_balance i b =
    statement (λ s. record s { accounts = change i (λ a. record a { balance = b }) s.accounts })

unfoldable pub soft_delete : ℕ → Exec (Unit {0})
soft_delete i =
    statement
      (λ s. record s { accounts = change i (λ a. record a { is_deleted = true }) s.accounts })

unfoldable pub set_archive_status : ℕ → Bool → Time → Exec (Unit {0})
set_archive_status i archived now = statement λ s. record s {
  accounts =
      change i
        (λ a. record a {
          is_archived = archived;
          archived_at = if archived then some now else none;
        })
        s.accounts;
}

-- UPDATE accounts SET … of the columns that the statement names; balance is not one of them.
unfoldable pub update : Account → Exec (Unit {0})
update b = statement λ s. record s {
  accounts =
      change b.id
        (λ a. record a {
          name = b.name;
          account_type_id = b.account_type_id;
          currency_id = b.currency_id;
          initial_balance = b.initial_balance;
          comment = b.comment;
          show_in_reports = b.show_in_reports;
          opening_date = b.opening_date;
          is_hidden = b.is_hidden;
          credit_limit = b.credit_limit;
        })
        s.accounts;
}

-- INSERT … RETURNING id: the row gets the next id of the sequence.
unfoldable pub create : Account → Exec Account
create a = returning λ s.
    let a' = record a { id = s.next_account_id } in
    (a', record s { accounts = a' ∷ s.accounts; next_account_id = s.next_account_id + 1 })
