-- ===== src/BudgetService/Recalc/Sums.antt =====
-- RecalculateCollectedAmounts of backend/internal/services/budgets/service.go, run without a fault,
-- against the sums of the expenses of each budget.
use mathlib.Core.Path.{fun_ext}
use orgfin_diploma.BudgetService.Recalc.Counted.{counts, expense_counts}
use orgfin_diploma.Repositories.Budgets.Found.{
  has_id, HasUniqueIds, All-coherent, map-All, has_id-keep, scanned_run,
}
use orgfin_diploma.Repositories.Lookups.{find_currency}
use orgfin_diploma.Exec.{◌>>=◌, ok}
use orgfin_diploma.Repositories.Budgets.{
  budget_rows, BudgetTransactionRow, is_expense, joined, change, is_some, of_user, Include,
  later_start, is_dated, in_categories,
}
use orgfin_diploma.BudgetService.Recalc.{
  sum_converted, code_or_error, recalculate_budget, recalculate_each, recalculate_collected_amounts,
}
use orgfin_diploma.BudgetService.{Service, IsConverter}
use orgfin_diploma.Models.{Db, Currency, Budget}
use orgfin_diploma.Repositories.Budgets
use orgfin_diploma.Prelude.{
  ℕ, Option, ℤ, same_text, List, String, keep, ◌≡◌, some, none, false, [], pos, ◌∷◌, ◌+ℤ◌,
  same_text_refl, refl, ap, int_laws, ◌∙◌, map, All, if◌then◌else◌, equal_or_not, inl, ◌==◌, sym,
  eq→==, inr, ne→==, true, sort_by, All-map_proof, All-sort_by, All-zip_proof, any-sort_by,
  All-keep,
}

abbrev pub code_of : Option Currency → String
code_of none = ""
code_of (some c) = c.code

-- The code of a budget's currency.
abbrev pub budget_code : Db → Budget → String
budget_code s b = code_of (find_currency b.currency_id s.currencies)

module _ (svc : Service) (conv : IsConverter svc.convert_amount) (u : ℕ) where
  unfoldable pub sum_values : Db → String → List BudgetTransactionRow → ℤ
  sum_values s code [] = pos 0
  sum_values s code (row ∷ rows) =
      conv.value s row.amount row.currency_code code row.date_time +ℤ sum_values s code rows

  -- The sum of the user's expenses in a budget's range and categories, in its currency.
  unfoldable pub collected : Db → Budget → ℤ
  collected s b = sum_values s (budget_code s b) (budget_rows s (keep (counts u b) s.transactions))

abbrev pub set_collected : ℤ → Budget → Budget
set_collected v r = record r { collected_amount = v }

code_found :
    (o : Option Currency) → same_text (code_of o) "" ≡ false → code_or_error o ≡ ok (code_of o)
code_found none h = cc (same_text_refl "")
code_found (some c) h = rw h refl

module _ (svc : Service) (conv : IsConverter svc.convert_amount) (u : ℕ) (s : Db) where
  abbrev pub with_budgets : List Budget → Db
  with_budgets bs = record s { budgets = bs }

  sum_run :
      (bs : List Budget) (code : String) (rows : List BudgetTransactionRow) (total : ℤ)
      → sum_converted svc.convert_amount code rows total [] (with_budgets bs)
        ≡ (ok (total +ℤ sum_values svc conv u s code rows), [], with_budgets bs)
  unfolding sum_converted sum_values ◌>>=◌
  sum_run bs code [] total = ap (λ t. (ok t, [], with_budgets bs)) (omega int_laws)
  sum_run bs code (row ∷ rows) total =
      rw
        (
          conv.answers (with_budgets bs) row.amount row.currency_code code row.date_time,
          conv.unmoved s bs row.amount row.currency_code code row.date_time,
        )
        (sum_run bs code rows _ ∙ ap (λ t. (ok t, [], with_budgets bs)) (omega int_laws))

  abbrev pub value_of : Budget → ℤ
  value_of = collected svc conv u s

  sum_run_zero :
      (bs : List Budget) (code : String) (rows : List BudgetTransactionRow)
      → sum_converted svc.convert_amount code rows (pos 0) [] (with_budgets bs)
        ≡ (ok (sum_values svc conv u s code rows), [], with_budgets bs)
  sum_run_zero bs code rows =
      sum_run bs code rows (pos 0) ∙ ap (λ t. (ok t, [], with_budgets bs)) (omega int_laws)

  pub recalculate_run :
      (bs : List Budget) (b : Budget)
      → same_text (budget_code s b) "" ≡ false
      → recalculate_budget svc.convert_amount u (joined s b) [] (with_budgets bs) ≡ (
        ok (record (joined s b) { row = set_collected (value_of b) b }),
        [],
        with_budgets (change b.id (set_collected (value_of b)) bs),
      )
  unfolding recalculate_budget Budgets.get_expense_transactions_for_budget
      Budgets.update_collected_amount collected ◌>>=◌
  recalculate_run bs b coded = rw (code_found (find_currency b.currency_id s.currencies) coded) (
      rw
        (
          ap (λ p. keep p s.transactions) (fun_ext (expense_counts u b)),
          sum_run_zero bs (budget_code s b) (budget_rows s (keep (counts u b) s.transactions)),
        )
        refl)

  -- The table after the rounds of some budgets.
  sums : List Budget → List Budget → List Budget
  sums [] bs = bs
  sums (y ∷ ys) bs = sums ys (change y.id (set_collected (value_of y)) bs)

  HasCode : Budget → Type 0
  HasCode b = same_text (budget_code s b) "" ≡ false

  each_run :
      (ys bs : List Budget)
      → All HasCode ys
      → recalculate_each svc.convert_amount u (map (joined s) ys) [] (with_budgets bs)
        ≡ (ok 0, [], with_budgets (sums ys bs))
  unfolding recalculate_each sums HasCode ◌>>=◌
  each_run [] bs coded = refl
  each_run (y ∷ ys) bs coded =
      rw
        (
          recalculate_run bs y coded.0,
          each_run ys (change y.id (set_collected (value_of y)) bs) coded.1,
        )
        refl

  -- One row through the rounds.
  sum_among : List Budget → Budget → Budget
  sum_among [] r = r
  sum_among (y ∷ ys) r = sum_among ys (if r.id == y.id then set_collected (value_of y) r else r)

  sums-eq-map : (ys bs : List Budget) → sums ys bs ≡ map (sum_among ys) bs
  unfolding sums sum_among
  sums-eq-map [] bs = sym (map_same bs)
    where
      map_same : (bs : List Budget) → map (sum_among []) bs ≡ bs
      map_same [] = refl
      map_same (b ∷ bs) = rw (map_same bs) refl
  sums-eq-map (y ∷ ys) bs = sums-eq-map ys _ ∙ map_twice bs
    where
      map_twice :
          (bs : List Budget)
          → map (sum_among ys) (change y.id (set_collected (value_of y)) bs)
            ≡ map (sum_among (y ∷ ys)) bs
      map_twice [] = refl
      map_twice (b ∷ bs) = rw (map_twice bs) refl

  -- Every budget of the rounds with a row's id is that row.
  IsCoherent : Budget → List Budget → Type 0
  IsCoherent r ys = All (λ y. y.id ≡ r.id → y ≡ r) ys

  sum_again :
      (r : Budget) (ys : List Budget)
      → IsCoherent r ys
      → sum_among ys (set_collected (value_of r) r) ≡ set_collected (value_of r) r
  unfolding sum_among IsCoherent
  sum_again r [] h = refl
  sum_again r (y ∷ ys) h = elim (equal_or_not r.id y.id) [
    | inl e ↦ rw (eq→== r.id y.id e) (rw (ap value_of (h.0 (sym e))) (sum_again r ys h.1))
    | inr ne ↦ rw (ne→== r.id y.id ne) (sum_again r ys h.1)
  ]

  sum_among-lem :
      (r : Budget) (ys : List Budget)
      → IsCoherent r ys
      → sum_among ys r ≡ (if has_id r.id ys then set_collected (value_of r) r else r)
  unfolding sum_among IsCoherent
  sum_among-lem r [] h = refl
  sum_among-lem r (y ∷ ys) h = elim (equal_or_not r.id y.id) [
    | inl e ↦ rw (eq→== r.id y.id e) (rw (ap value_of (h.0 (sym e))) (sum_again r ys h.1))
    | inr ne ↦ rw (ne→== r.id y.id ne) (sum_among-lem r ys h.1)
  ]

  -- A run's pass over the table.
  abbrev pub summed : Budget → Budget
  summed r = if of_user u Include.active r then set_collected (value_of r) r else r

coded_known : (o : Option Currency) → same_text (code_of o) "" ≡ false → is_some o ≡ true
coded_known none h = cc (same_text_refl "")
coded_known (some c) h = refl

-- Without a fault, with ids that are unique and currencies that have a code,
-- RecalculateCollectedAmounts succeeds: each active budget of the user, and no other, collects the sum
-- of the user's expenses in its range and categories, each converted to its currency on the day of
-- the expense; no other column changes.
pub recalculate_collected_amounts-exact :
    (svc : Service) (conv : IsConverter svc.convert_amount) (u : ℕ) (s : Db)
    → HasUniqueIds s.budgets
    → All (λ b. same_text (budget_code s b) "" ≡ false) s.budgets
    → recalculate_collected_amounts svc u [] s ≡ (
      ok tt,
      [],
      record s {
        budgets =
            map
              (λ b.
                if of_user u Include.active b
                then set_collected (collected svc conv u s b) b
                else b)
              s.budgets;
      },
    )
unfolding recalculate_collected_amounts Budgets.get_by_user_id HasCode IsCoherent ◌>>=◌
recalculate_collected_amounts-exact svc conv u s unique coded =
    let active = of_user u Include.active in
    let before = later_start svc.ties in
    let ys = sort_by before (keep active s.budgets) in
    let coherent : All (λ r. IsCoherent svc conv u s r ys) s.budgets =
      All-map_proof
        (λ r h. All-sort_by before _ (keep active s.budgets) (All-keep _ active s.budgets h))
        s.budgets (All-coherent s.budgets unique) in
    let same : map (sum_among svc conv u s ys) s.budgets ≡ map (summed svc conv u s) s.budgets =
      map-All _ _ s.budgets (
        All-zip_proof
          (λ r h e.
            sum_among-lem svc conv u s r ys h
            ∙ ap (λ b. if b then set_collected (collected svc conv u s r) r else r)
                (any-sort_by before (λ b. r.id == b.id) (keep active s.budgets) ∙ e))
          s.budgets coherent (has_id-keep active s.budgets unique)) in
    rw
      (
        scanned_run before active s (All-map_proof (λ b h. coded_known _ h) s.budgets coded),
        each_run svc conv u s ys s.budgets
            (All-sort_by before _ _ (All-keep _ active s.budgets coded)),
        sums-eq-map svc conv u s ys s.budgets,
        same,
      )
      refl
