-- ===== src/TransactionService/Recalc/Rows.antt =====
-- The loop of recalculateBalances: what it computes, and what it leaves of the table.
use orgfin_diploma.Prelude.{
  ℕ, ℤ, ◌≡◌, refl, ◌∙◌, All-zip_proof, inl, inr, ◌≢◌, sym, true, some, List, [], ◌∷◌, arith, ◌==◌,
  ==→eq, if◌then◌else◌, All, All-map_proof, Bool-cases,
}
use orgfin_diploma.Models.{Transaction, Db}
use orgfin_diploma.Exec.{ok, ◌>>=◌, Result-cases}
use orgfin_diploma.Repositories.Transactions
use orgfin_diploma.Repositories.Transactions.{for_recalc, sort, of_account, change}
use orgfin_diploma.Repositories.Transactions.Sorted.{All-sort, All-keep}
use orgfin_diploma.TransactionService.Recalc.{
  next_balance, row_balance, recalculate_from_transactions, recalculate_rows,
}
use orgfin_diploma.TransactionService.Recalc.Alike.{
  SameEffect, SameEffect-refl, Alike, Alike-refl, Alike-trans,
}

-- The two switches.
switches_agree : (b : ℤ) (t : Transaction) → row_balance b t ≡ next_balance b t
unfolding row_balance next_balance
switches_agree b t = refl

-- Without a fault, the loop of recalculateBalances and RecalculateFromTransactions compute the
-- same balance or the same error from the same rows, whatever the database holds.
pub rows_result :
    (b : ℤ) (ts : List Transaction) (s : Db)
    → (recalculate_rows b ts [] s).0 ≡ recalculate_from_transactions b ts
unfolding recalculate_rows recalculate_from_transactions Transactions.update_balance ◌>>=◌
rows_result b [] s = refl
rows_result b (t ∷ ts) s = elim (Result-cases (next_balance b t)) [
  | inl (c, e) ↦ rw (switches_agree b t, e) (rows_result c ts _)
  | inr (x, e) ↦ rw (switches_agree b t, e) refl
]

-- The loop writes to the table of transactions only, and uses up no fault.
pub rows_frame :
    (b : ℤ) (ts : List Transaction) (s : Db)
    → ((recalculate_rows b ts [] s).1 ≡ [])
      × ((recalculate_rows b ts [] s).2
          ≡ record s { transactions = (recalculate_rows b ts [] s).2.transactions })
unfolding recalculate_rows Transactions.update_balance ◌>>=◌
rows_frame b [] s = (refl, refl)
rows_frame b (t ∷ ts) s = elim (Result-cases (next_balance b t)) [
  | inl (c, e) ↦ rw (switches_agree b t, e) (rows_frame c ts _)
  | inr (x, e) ↦ rw (switches_agree b t, e) (refl, refl)
]

-- A row of the table with the id of `t` is an adjustment only if `t` is, to the same target.
abbrev Owns : List Transaction → Transaction → Type 0
Owns us t =
    All
      (λ u.
        u.id ≡ t.id
        → u.is_adjustment ≡ true
        → (t.is_adjustment ≡ true) × (u.new_balance ≡ t.new_balance))
      us

Owns-Alike : (t : Transaction) (us vs : List Transaction) → Alike us vs → Owns us t → Owns vs t
Owns-Alike t [] [] p h = tt
Owns-Alike t [] (v ∷ vs) p h = absurd p
Owns-Alike t (u ∷ us) [] p h = absurd p
Owns-Alike t (u ∷ us) (v ∷ vs) p h = (
  λ e a. let (ta, tn) = h.0 (p.0.same_id ∙ e) (p.0.same_adjustment ∙ a) in ground arith,
  Owns-Alike t us vs p.1 h.1,
)

-- Ids are unique: the primary key.
abbrev pub HasUniqueIds : List Transaction → Type 0
HasUniqueIds [] = Unit
HasUniqueIds (t ∷ ts) = All (λ u. u.id ≢ t.id) ts × HasUniqueIds ts

unique-Owns : (us : List Transaction) → HasUniqueIds us → All (Owns us) us
unique-Owns [] h = tt
unique-Owns (t ∷ ts) h = (
  (λ _ a. (a, refl), All-map_proof (λ u ne e. absurd (ne e)) ts h.0),
  All-zip_proof (λ u ne owns. (λ e. absurd (ne (sym e)), owns)) ts h.0 (unique-Owns ts h.1),
)

-- The rows that are recalculated own their ids in the table.
for_recalc-Owns :
    (a : ℕ) (us : List Transaction) → HasUniqueIds us → All (Owns us) (for_recalc a us)
unfolding for_recalc
for_recalc-Owns a us h =
    All-sort (Owns us) _ (All-keep (Owns us) (of_account a) us (unique-Owns us h))

-- The balance written to a row is one that the row implies.
write-Alike :
    (b c : ℤ) (t : Transaction) (us : List Transaction)
    → next_balance b t ≡ ok c
    → Owns us t
    → Alike us (change t.id (λ r. record r { new_balance = some c }) us)
unfolding change next_balance
write-Alike b c t [] e h = tt
write-Alike b c t (u ∷ us) e h = (written, write-Alike b c t us e h.1)
  where
    written : SameEffect u (if u.id == t.id then record u { new_balance = some c } else u)
    written = elim (Bool-cases (u.id == t.id)) [
      | inl same ↦ rw same (let pinned = h.0 (==→eq u.id t.id same) in ground arith)
      | inr other ↦ rw other (SameEffect-refl u)
    ]

-- The loop changes no more of the table than the recalculation may see.
rows-Alike :
    (b : ℤ) (ts : List Transaction) (s : Db)
    → All (Owns s.transactions) ts
    → Alike s.transactions (recalculate_rows b ts [] s).2.transactions
unfolding recalculate_rows Transactions.update_balance ◌>>=◌
rows-Alike b [] s h = Alike-refl s.transactions
rows-Alike b (t ∷ ts) s h = elim (Result-cases (next_balance b t)) [
  | inl (c, e) ↦
      rw (switches_agree b t, e)
        (Alike-trans s.transactions _ _ (write-Alike b c t s.transactions e h.0) (
          rows-Alike c ts _ (
            All-map_proof
              (λ u. Owns-Alike u s.transactions _ (write-Alike b c t s.transactions e h.0)) ts
              h.1)))
  | inr (x, e) ↦ rw (switches_agree b t, e) (Alike-refl s.transactions)
]

-- The recalculation of an account leaves every row of every account alike.
pub for_recalc-rows-Alike :
    (a : ℕ) (b : ℤ) (s : Db)
    → HasUniqueIds s.transactions
    → Alike s.transactions (recalculate_rows b (for_recalc a s.transactions) [] s).2.transactions
for_recalc-rows-Alike a b s h =
    rows-Alike b (for_recalc a s.transactions) s (for_recalc-Owns a s.transactions h)
