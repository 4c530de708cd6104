-- ===== src/Repositories/Transactions.antt =====
-- backend/internal/repositories/transaction.go
pub mod Sorted
use orgfin_diploma.Prelude.{
  ℕ, ◌+◌, ℤ, Bool, true, false, not, ◌&&◌, ◌||◌, Option, none, some, List, [], ◌∷◌, ltb, leb, ◌==◌,
  if◌then◌else◌, keep,
}
use orgfin_diploma.Models.{Time, Transaction, Db}
use orgfin_diploma.Exec.{Exec, ok, query, returning, statement, row_of}

-- WHERE t.id = i AND t.is_deleted = false
unfoldable pub find : ℕ → List Transaction → Option Transaction
find i [] = none
find i (t ∷ ts) = if t.id == i && not t.is_deleted then some t else find i ts

unfoldable pub get_by_id : ℕ → Exec Transaction
get_by_id i = query (λ s. row_of (find i s.transactions))

-- UPDATE transactions SET … WHERE id = i
unfoldable pub change : ℕ → (Transaction → Transaction) → List Transaction → List Transaction
change i f [] = []
change i f (t ∷ ts) = (if t.id == i then f t else t) ∷ change i f ts

abbrev change_row : ℕ → (Transaction → Transaction) → Exec (Unit {0})
change_row i f = statement (λ s. record s { transactions = change i f s.transactions })

-- The row that an INSERT stores: it has the next id of the sequence, and is not deleted.
abbrev pub stored : Db → Transaction → Transaction
stored s t = record t { id = s.next_transaction_id; is_deleted = false }

-- INSERT … RETURNING id
unfoldable pub create : Transaction → Exec Transaction
create t = returning λ s. (
  stored s t,
  record s {
    transactions = stored s t ∷ s.transactions;
    next_transaction_id = s.next_transaction_id + 1;
  },
)

-- The statement sets every column but id, user_id and is_deleted.
unfoldable pub update : Transaction → Exec (Unit {0})
update u = change_row u.id λ t. record t {
  category_id = u.category_id;
  amount = u.amount;
  new_balance = u.new_balance;
  label = u.label;
  notes = u.notes;
  date_time = u.date_time;
  is_transfer = u.is_transfer;
  is_income = u.is_income;
  is_adjustment = u.is_adjustment;
  exclude_from_reports = u.exclude_from_reports;
  linked_transaction_id = u.linked_transaction_id;
  account_id = u.account_id;
}

-- The soft delete.
unfoldable pub delete : ℕ → Exec (Unit {0})
delete i = change_row i (λ t. record t { is_deleted = true })

unfoldable pub update_linked_id : ℕ → ℕ → Exec (Unit {0})
update_linked_id i linked = change_row i (λ t. record t { linked_transaction_id = some linked })

unfoldable pub update_balance : ℕ → ℤ → Exec (Unit {0})
update_balance i b = change_row i (λ t. record t { new_balance = some b })

-- ORDER BY date_time ASC, id ASC: a NULL date comes last.
abbrev pub date_lt : Option Time → Option Time → Bool
date_lt none e = false
date_lt (some d) none = true
date_lt (some d) (some e) = ltb d e

-- `t` may stand before `u`.
unfoldable pub ordered : Transaction → Transaction → Bool
ordered t u =
    date_lt t.date_time u.date_time || (not (date_lt u.date_time t.date_time) && leb t.id u.id)

unfoldable pub insert_sorted : Transaction → List Transaction → List Transaction
insert_sorted t [] = t ∷ []
insert_sorted t (u ∷ us) = if ordered t u then t ∷ u ∷ us else u ∷ insert_sorted t us

unfoldable pub sort : List Transaction → List Transaction
unfolding insert_sorted
sort [] = []
sort (t ∷ ts) = insert_sorted t (sort ts)

-- WHERE account_id = a AND is_deleted = false
abbrev pub of_account : ℕ → Transaction → Bool
of_account a t = t.account_id == a && not t.is_deleted

unfoldable pub for_recalc : ℕ → List Transaction → List Transaction
for_recalc a ts = sort (keep (of_account a) ts)

unfoldable pub get_by_account_id_for_recalc : ℕ → Exec (List Transaction)
get_by_account_id_for_recalc a = query (λ s. ok (for_recalc a s.transactions))
