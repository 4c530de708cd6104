-- ===== src/Repositories/Budgets.antt =====
-- backend/internal/repositories/budget.go. The table refuses a name of more than 200 characters and a
-- period that is not a value of its enum: the call of the database then fails. ORDER BY leaves the
-- order of equal dates open, so a test that breaks ties is an argument.
pub mod Found
use orgfin_diploma.Models.{Budget, BudgetModel, Db, Time, Account, Currency, Transaction}
use orgfin_diploma.Exec.{Exec, ok, err, Error, query, inserting, statement, row_of, Result}
use orgfin_diploma.Repositories.Accounts
use orgfin_diploma.Repositories.Lookups.{find_currency}
use orgfin_diploma.Prelude.{
  ℕ, ◌+◌, ℤ, pos, String, false, true, ◌||◌, sort_by, Option, Bool, List, same_text, ◌==◌,
  if◌then◌else◌, ltb, map, none, leb, some, keep, find_first, not, ◌&&◌, every, ◌∷◌, any,
  text_length, contains, [], eqb_ℤ,
}

unfoldable pub is_period : String → Bool
is_period p =
    same_text p "DAILY"
    || same_text p "WEEKLY"
    || same_text p "MONTHLY"
    || same_text p "YEARLY"
    || same_text p "CUSTOM"

-- The constraints of the columns name and period.
unfoldable pub fits : Budget → Bool
unfolding is_period
fits b = leb (text_length b.name) 200 && is_period b.period

abbrev pub store : Bool → Budget → Db → Option (Budget × Db)
store false b s = none
store true b s =
    some (b, record s { budgets = b ∷ s.budgets; next_budget_id = s.next_budget_id + 1 })

-- The row that INSERT stores.
abbrev pub inserted_row : Budget → ℕ → Budget
inserted_row b i = record b {
  id = i;
  collected_amount = pos 0;
  is_archived = false;
  is_deleted = false;
}

unfoldable pub create : Budget → Exec Budget
unfolding fits
create b = inserting (λ s. store (fits b) (inserted_row b s.next_budget_id) s)

-- LEFT JOIN currencies; a row without a currency does not scan.
abbrev pub joined : Db → Budget → BudgetModel
joined s b = record { row = b; currency = find_currency b.currency_id s.currencies }

abbrev pub is_some : {A : Type 0} → Option A → Bool
is_some none = false
is_some (some a) = true

abbrev pub scanned : Db → List Budget → Result (List BudgetModel)
scanned s rows =
    if every (λ b. is_some (find_currency b.currency_id s.currencies)) rows
    then ok (map (joined s) rows)
    else err Error.db_failure

abbrev pub scanned_row : Db → Option Budget → Result BudgetModel
scanned_row s none = err Error.no_rows
scanned_row s (some b) =
    if is_some (find_currency b.currency_id s.currencies)
    then ok (joined s b)
    else err Error.db_failure

abbrev pub find : ℕ → List Budget → Option Budget
find i = find_first (λ b. b.id == i && not b.is_deleted)

unfoldable pub get_by_id : ℕ → Exec BudgetModel
get_by_id i = query (λ s. scanned_row s (find i s.budgets))

pub data Include : Type 0 where
  all active archived : Include

abbrev pub included : Include → Budget → Bool
included Include.all b = true
included Include.active b = not b.is_archived
included Include.archived b = b.is_archived

abbrev pub of_user : ℕ → Include → Budget → Bool
of_user u which b = (b.user_id == u && not b.is_deleted) && included which b

abbrev pub Ties : Type 0
Ties = Budget → Budget → Bool

-- ORDER BY start_date DESC
abbrev pub later_start : Ties → Budget → Budget → Bool
later_start ties a b = ltb b.start_date a.start_date || (b.start_date == a.start_date && ties a b)

-- ORDER BY end_date ASC
abbrev pub earlier_end : Ties → Budget → Budget → Bool
earlier_end ties a b = ltb a.end_date b.end_date || (a.end_date == b.end_date && ties a b)

unfoldable pub get_by_user_id : Ties → ℕ → Include → Exec (List BudgetModel)
unfolding sort_by
get_by_user_id ties u which =
    query (λ s. scanned s (sort_by (later_start ties) (keep (of_user u which) s.budgets)))

abbrev pub is_outdated : Time → Budget → Bool
is_outdated now b = ltb b.end_date now && (not b.is_archived && not b.is_deleted)

unfoldable pub get_outdated_budgets : Ties → Time → Exec (List BudgetModel)
unfolding sort_by
get_outdated_budgets ties now =
    query (λ s. scanned s (sort_by (earlier_end ties) (keep (is_outdated now) s.budgets)))

-- UPDATE … WHERE id = i
abbrev pub change : ℕ → (Budget → Budget) → List Budget → List Budget
change i f = map (λ b. if b.id == i then f b else b)

abbrev pub set_columns : Budget → Budget → Budget
set_columns u b = record b {
  name = u.name;
  currency_id = u.currency_id;
  target_amount = u.target_amount;
  period = u.period;
  repeat = u.repeat;
  start_date = u.start_date;
  end_date = u.end_date;
  included_categories = u.included_categories;
  comment = u.comment;
}

-- A row that is not there is not checked.
abbrev pub store_update : Bool → Budget → Db → Option (Unit {0} × Db)
store_update false u s = none
store_update true u s = some (tt, record s { budgets = change u.id (set_columns u) s.budgets })

unfoldable pub update : Budget → Exec (Unit {0})
unfolding fits
update u = inserting (λ s. store_update (fits u || not (any (λ b. b.id == u.id) s.budgets)) u s)

unfoldable pub delete : ℕ → Exec (Unit {0})
delete i =
    statement (λ s. record s { budgets = change i (λ b. record b { is_deleted = true }) s.budgets })

abbrev pub archived_row : Budget → Budget
archived_row b = record b { is_archived = true }

unfoldable pub archive : ℕ → Exec (Unit {0})
archive i = statement (λ s. record s { budgets = change i archived_row s.budgets })

unfoldable pub update_collected_amount : ℕ → ℤ → Exec (Unit {0})
update_collected_amount i amount =
    statement
      λ s. record s { budgets = change i (λ b. record b { collected_amount = amount }) s.budgets }

pub record BudgetTransactionRow : Type 0 where
  pub amount : ℤ
  pub currency_code : String
  pub date_time : Time

-- WHERE, but for the joins. A row without a date is in no range.
abbrev pub is_dated : Time → Time → Option Time → Bool
is_dated start end none = false
is_dated start end (some t) = leb start t && ltb t end

-- An empty list of categories is no filter.
abbrev pub in_categories : List ℤ → Option ℕ → Bool
in_categories [] c = true
in_categories (i ∷ is) none = false
in_categories (i ∷ is) (some c) = any (eqb_ℤ (pos c)) (i ∷ is)

abbrev pub is_expense : ℕ → Time → Time → List ℤ → Transaction → Bool
is_expense u start end categories t =
    t.user_id == u
    && (not t.is_income && (not t.is_transfer && (not t.is_deleted && not t.exclude_from_reports)))
    && is_dated start end t.date_time
    && in_categories categories t.category_id

-- The currency of a row's account, archived or deleted, by the joins.
abbrev pub currency_of : Db → Option Account → Option Currency
currency_of s none = none
currency_of s (some a) = find_currency a.currency_id s.currencies

abbrev pub account_of : ℕ → List Account → Option Account
account_of i = find_first (λ a. a.id == i)

abbrev pub cons_row :
    Transaction
    → Option Currency
    → Option Time
    → List BudgetTransactionRow
    → List BudgetTransactionRow
cons_row t none d rows = rows
cons_row t (some c) none rows = rows
cons_row t (some c) (some d) rows =
    record { amount = t.amount; currency_code = c.code; date_time = d } ∷ rows

unfoldable pub budget_rows : Db → List Transaction → List BudgetTransactionRow
budget_rows s [] = []
budget_rows s (t ∷ ts) =
    cons_row t (currency_of s (account_of t.account_id s.accounts)) t.date_time (budget_rows s ts)

unfoldable pub get_expense_transactions_for_budget :
    ℕ → Time → Time → List ℤ → Exec (List BudgetTransactionRow)
unfolding budget_rows
get_expense_transactions_for_budget u start end categories =
    query (λ s. ok (budget_rows s (keep (is_expense u start end categories) s.transactions)))
