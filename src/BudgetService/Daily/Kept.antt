-- ===== src/BudgetService/Daily/Kept.antt =====
-- DailyProcessing of backend/internal/services/budgets/service.go where calls of the database fail: a
-- repeating budget is not lost.
use orgfin_diploma.BudgetService.Daily.Continued.{IsContinued, IsContinued-own, IsContinued-other}
use orgfin_diploma.Exec.Rules.{IsReadOnly-query}
use orgfin_diploma.Exec.Answers.{Yields-query}
use orgfin_diploma.Repositories.Lookups.{find_currency}
use orgfin_diploma.BudgetService.{Service}
use orgfin_diploma.Exec.Keeps.{Keeps, Keeps-bind, Keeps-pure, Keeps-try}
use orgfin_diploma.BudgetService.Daily.{
  copy_of, process, daily_processing, process_each, count_processed,
}
use orgfin_diploma.Repositories.Budgets.{
  inserted_row, change, archived_row, store, fits, scanned, joined, is_some, earlier_end,
  is_outdated,
}
use orgfin_diploma.Exec.{◌>>=◌, Exec, Faults, ok, err, continue, Result, query}
use orgfin_diploma.Models.{Db, Budget, BudgetModel, Time}
use orgfin_diploma.Repositories.Budgets
use orgfin_diploma.Repositories.Budgets.Found.{HasUniqueIds, All-coherent}
use orgfin_diploma.Prelude.{
  ℕ, ◌≤◌, List, ◌∷◌, ◌⊎◌, ◌≡◌, inl, [], subst, sym, inr, ◌<◌, arith, true, refl, equal_or_not, All,
  map, Bool-cases, every, sort_by, keep, All-sort_by, All-zip_proof, HasRow, All-row, All-keep,
}

module _ (b : Budget) (n : ℕ) (old : b.id < n) where
  -- A row of the table: only this budget has its id.
  abbrev IsOwnOrOther : Budget → Type 0
  IsOwnOrOther y = (y.id < n) × (y.id ≡ b.id → y ≡ b)

  process-IsContinued :
      b.repeat ≡ true → (y : Budget) → IsOwnOrOther y → Keeps (IsContinued b n) (process y)
  process-IsContinued repeats y (lt, same) = elim (equal_or_not y.id b.id) [
    | inl e ↦
        subst (λ z. Keeps (IsContinued b n) (process z)) (sym (same e))
          (IsContinued-own b n old repeats)
    | inr ne ↦ IsContinued-other b n old y ne lt
  ]

  process_each-IsContinued :
      b.repeat ≡ true
      → (s₀ : Db) (ys : List Budget) → All IsOwnOrOther ys
      → Keeps (IsContinued b n) (process_each (map (joined s₀) ys))
  unfolding process_each
  process_each-IsContinued repeats s₀ [] h = Keeps-pure 0
  process_each-IsContinued repeats s₀ (y ∷ ys) h =
      Keeps-bind _ _ (Keeps-try _ (process-IsContinued repeats y h.0)) (λ done.
        Keeps-bind _ _ (process_each-IsContinued repeats s₀ ys h.1)
          (λ k. Keeps-pure (count_processed done k)))

scanned_rows :
    (s : Db) (rows : List Budget) (bs : List BudgetModel)
    → scanned s rows ≡ ok bs
    → bs ≡ map (joined s) rows
scanned_rows s rows bs h =
    elim (Bool-cases (every (λ b. is_some (find_currency b.currency_id s.currencies)) rows)) [
      | inl e ↦ cc (rw e at h)
      | inr e ↦ cc (rw e at h)
    ]

continue_kept :
    {P : Db → Type 0} (r : Result (List BudgetModel)) (f : List BudgetModel → Exec ℕ) (fs : Faults)
    (s : Db)
    → ((bs : List BudgetModel) → r ≡ ok bs → Keeps P (f bs))
    → P s
    → P (continue r f fs s).2
continue_kept (ok bs) f fs s h p = (h bs refl).at fs s p
continue_kept (err e) f fs s h p = p

-- Whatever calls of the database fail, DailyProcessing loses no repeating budget of the table: it is
-- still there as it was, or the table has its copy, under a new id and not archived.
pub daily_processing-keeps :
    (svc : Service) (now : Time) (b : Budget) (fs : Faults) (s : Db)
    → HasUniqueIds s.budgets
    → All (λ c. c.id < s.next_budget_id) s.budgets
    → HasRow b s.budgets
    → b.repeat ≡ true
    → let (_, _, s') = daily_processing svc now fs s in
      HasRow b s'.budgets
      ⊎ ((i : ℕ) × (s.next_budget_id ≤ i) × HasRow (inserted_row (copy_of b) i) s'.budgets)
unfolding daily_processing ◌>>=◌ Budgets.get_outdated_budgets
daily_processing-keeps svc now b fs s unique below here repeats =
    let read =
      λ (t : Db). scanned t (sort_by (earlier_end svc.ties) (keep (is_outdated now) t.budgets)) in
    let answers =
      Yields-query {P = λ t. t ≡ s} {Q = λ bs. read s ≡ ok bs} read
        (λ t bs same e. subst (λ u. read u ≡ ok bs) same e) in
    let old = All-row (λ c. c.id < s.next_budget_id) b s.budgets here below in
    let rows =
      All-sort_by (earlier_end svc.ties) (IsOwnOrOther b s.next_budget_id old)
        (keep (is_outdated now) s.budgets)
        (All-keep _ (is_outdated now) s.budgets (
          All-zip_proof (λ c lt same. (lt, same)) s.budgets below
            (All-row (λ c. All (λ y. y.id ≡ c.id → y ≡ c) s.budgets) b s.budgets here
              (All-coherent s.budgets unique)))) in
    (continue_kept {P = IsContinued b s.next_budget_id} (query read fs s).0 process_each
      (query read fs s).1 (query read fs s).2
      (λ bs e.
        subst (λ cs. Keeps (IsContinued b s.next_budget_id) (process_each cs))
          (sym (scanned_rows s _ bs (answers.at fs s bs refl e)))
          (process_each-IsContinued b s.next_budget_id old repeats s _ rows))
      (subst (IsContinued b s.next_budget_id) (sym ((IsReadOnly-query read).at fs s))
        (omega arith, inl here))).1
