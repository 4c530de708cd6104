-- ===== src/BudgetService/Editing/Isolation.antt =====
-- Update, Delete and Archive of backend/internal/services/budgets/service.go and the budgets of other
-- users.
use orgfin_diploma.BudgetService.Editing.Rejects.{IsReadOnly-own_budget, IsReadOnly-get_currency}
use orgfin_diploma.BudgetService.Editing.Ownership.{
  IsApart, foreign, IsRowOf, read_then, Keeps-own, own_row, own_id,
}
use orgfin_diploma.BudgetService.Recalc.{sum_converted, recalculate_budget}
use orgfin_diploma.Exec.Keeps.{
  Keeps-statement, Keeps, Keeps-pure, Keeps-bind, Keeps-read, Keeps-lift, Keeps-query,
  Keeps-inserting, Keeps-try,
}
use orgfin_diploma.Exec.Rules.{IsReadOnly, IsReadOnly-lift}
use orgfin_diploma.Models.{Db, Budget, BudgetModel, Time}
use orgfin_diploma.Exec.{◌>>=◌, Exec, Faults}
use orgfin_diploma.Repositories.Budgets
use orgfin_diploma.Repositories.Budgets.Found.{HasUniqueIds}
use orgfin_diploma.BudgetService.{Service, CurrencyConverter, BudgetParams}
use orgfin_diploma.BudgetService.Editing.{own_budget, update, delete, archive, with_params}
use orgfin_diploma.Repositories.Budgets.{
  change, scanned_row, joined, is_some, BudgetTransactionRow, store_update, set_columns,
}
use orgfin_diploma.Prelude.{
  ℕ, List, ◌≡◌, ◌∷◌, sym, Bool, [], true, false, refl, subst, ap, some, ℤ, String, ◌+ℤ◌, pos,
}

-- Whatever follows the check of ownership keeps the rows of the others, when it updates only that row.
module _ (u i : ℕ) (s : Db) (unique : HasUniqueIds s.budgets) where
  after_own :
      {B : Type 0} (f : BudgetModel → Exec B) (fs : Faults)
      → ((m : BudgetModel)
          → ((gs : Faults) (t : Db)
              → IsRowOf i s m × (m.row.user_id ≡ u)
              → IsApart u i (foreign u s) t
              → IsApart u i (foreign u s) (f m gs t).2))
      → foreign u ((own_budget u i >>= f) fs s).2 ≡ foreign u s
  unfolding IsApart
  after_own f fs step =
      read_then (λ t. foreign u t ≡ foreign u s) (own_budget u i) f fs s (IsReadOnly-own_budget u i)
        refl (λ m e gs. (step m gs s (own_row u i fs s m e) (own_id u i fs s m unique e, refl)).1)

  delete-keeps_foreign : (fs : Faults) → foreign u (delete u i fs s).2 ≡ foreign u s
  unfolding delete Budgets.delete
  delete-keeps_foreign fs =
      after_own (λ m. Budgets.delete i) fs
        (λ m gs t row.
          (Keeps-statement _ (
              Keeps-own u i (foreign u s) (λ b. record b { is_deleted = true })
                (λ b. (refl, refl)))).at
            gs t)

  archive-keeps_foreign : (fs : Faults) → foreign u (archive u i fs s).2 ≡ foreign u s
  unfolding archive Budgets.archive
  archive-keeps_foreign fs =
      after_own (λ m. Budgets.archive i) fs
        (λ m gs t row.
          (Keeps-statement _ (
              Keeps-own u i (foreign u s) (λ b. record b { is_archived = true })
                (λ b. (refl, refl)))).at
            gs t)

module _ (u i : ℕ) (others : List Budget) (convert : CurrencyConverter)
    (reads : (a : ℤ) (f t : String) (d : Time) → IsReadOnly (convert a f t d)) where
  sum_converted-Keeps :
      (code : String) (rows : List BudgetTransactionRow) (total : ℤ)
      → Keeps (IsApart u i others) (sum_converted convert code rows total)
  unfolding sum_converted
  sum_converted-Keeps code [] total = Keeps-pure total
  sum_converted-Keeps code (row ∷ rows) total =
      Keeps-bind _ _ (Keeps-read _ (reads _ _ _ _))
        (λ converted. sum_converted-Keeps code rows (total +ℤ converted))

  recalculate_budget-Keeps :
      (b : BudgetModel) → b.row.id ≡ i → Keeps (IsApart u i others) (recalculate_budget convert u b)
  unfolding recalculate_budget Budgets.update_collected_amount
      Budgets.get_expense_transactions_for_budget
  recalculate_budget-Keeps b same = Keeps-bind _ _ (Keeps-lift _) (λ code.
      Keeps-bind _ _ (Keeps-query _) (λ rows.
        Keeps-bind _ _ (sum_converted-Keeps code rows (pos 0)) (λ total.
          Keeps-bind _ _
            (Keeps-statement _ (
              subst
                (λ j.
                  (t : Db)
                  → IsApart u i others t
                  → IsApart u i others (record t {
                    budgets = change j (λ b. record b { collected_amount = total }) t.budgets;
                  }))
                (sym same)
                (Keeps-own u i others (λ b. record b { collected_amount = total })
                  (λ b. (refl, refl)))))
            (λ done. Keeps-pure _))))

module _ (u i : ℕ) (others : List Budget) where
  store_update-IsApart :
      (b : Bool) (row : Budget)
      → row.id ≡ i
      → row.user_id ≡ u
      → (t : Db) (r : Unit {0} × Db) → IsApart u i others t
      → store_update b row t ≡ some r
      → IsApart u i others r.1
  store_update-IsApart true row same own t r h e =
      subst (IsApart u i others) (ap (λ x. x.1) (the_same e)) (
        subst
          (λ j. IsApart u i others (record t { budgets = change j (set_columns row) t.budgets }))
          (sym same) (Keeps-own u i others (set_columns row) (λ b. (refl, refl)) t h))
    where
      the_same : {x y : Unit {0} × Db} → some x ≡ some y → x ≡ y
      the_same k = cc k
  store_update-IsApart false row same own t r h e = cc e

update-keeps_foreign :
    (svc : Service)
    (reads : (a : ℤ) (f t : String) (d : Time) → IsReadOnly (svc.convert_amount a f t d)) (u i : ℕ)
    (p : BudgetParams) (fs : Faults) (s : Db)
    → HasUniqueIds s.budgets
    → foreign u (update svc u i p fs s).2 ≡ foreign u s
unfolding update with_params Budgets.update IsRowOf
update-keeps_foreign svc reads u i p fs s unique =
    read_then (λ t. foreign u t ≡ foreign u s) _ _ fs s (IsReadOnly-lift _) refl
      (λ start _ gs.
        read_then (λ t. foreign u t ≡ foreign u s) _ _ gs s (IsReadOnly-lift _) refl
          (λ end _ gs. after_own u i s unique _ gs (λ m hs t row.
            (Keeps-bind _ _ (Keeps-read _ (IsReadOnly-get_currency p.currency_id)) (λ currency.
                Keeps-bind _ _
                  (Keeps-inserting _ (λ t a t' h e.
                    store_update-IsApart u i (foreign u s) _ (with_params svc p start end m.row)
                      row.0.1 row.1 t (a, t') h e))
                  (λ stored.
                    Keeps-bind _ _
                      (Keeps-try _ (
                        recalculate_budget-Keeps u i (foreign u s) svc.convert_amount reads _
                          row.0.1))
                      (λ done. Keeps-pure _)))).at
              hs t)))

-- When the ids of the table are unique and a conversion writes nothing, Update, Delete and Archive leave
-- the budgets of the other users as they were, for any id and whatever calls of the database fail.
pub edits-keep_foreign :
    (svc : Service)
    (reads : (a : ℤ) (f t : String) (d : Time) → IsReadOnly (svc.convert_amount a f t d)) (u i : ℕ)
    (p : BudgetParams) (fs : Faults) (s : Db)
    → HasUniqueIds s.budgets
    → (foreign u (update svc u i p fs s).2 ≡ foreign u s)
      × (foreign u (delete u i fs s).2 ≡ foreign u s)
      × (foreign u (archive u i fs s).2 ≡ foreign u s)
edits-keep_foreign svc reads u i p fs s unique = (
  update-keeps_foreign svc reads u i p fs s unique,
  delete-keeps_foreign u i s unique fs,
  archive-keeps_foreign u i s unique fs,
)
