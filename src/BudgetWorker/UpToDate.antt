-- ===== src/BudgetWorker/UpToDate.antt =====
-- Budgets after the queued tasks of backend/internal/workers/tasks/budget_update.go.
use orgfin_diploma.Repositories.Lookups.{find_currency}
use orgfin_diploma.Exec.{ok, ◌>>=◌}
use orgfin_diploma.BudgetWorker.{process_tasks}
use orgfin_diploma.Repositories.Budgets.{of_user, BudgetTransactionRow, Include, budget_rows}
use orgfin_diploma.BudgetService.Recalc.Sums.{
  sum_values, collected, budget_code, recalculate_collected_amounts-exact, code_of, set_collected,
}
use orgfin_diploma.Models.{Db, BudgetTask, Budget}
use orgfin_diploma.BudgetService.{Service, IsConverter}
use orgfin_diploma.Repositories.Budgets.Found.{HasUniqueIds, HasUniqueIds-map, All-map}
use orgfin_diploma.BudgetService.Recalc.Sums.{summed}
use orgfin_diploma.Prelude.{
  List, ℕ, map, All, String, ◌≡◌, true, ◌∷◌, arith, ◌⊎◌, [], refl, same_text, Bool, inl,
  if◌then◌else◌, inr, subst, false, All-rows, ap, sym, ◌∙◌,
}

module _ (svc : Service) (conv : IsConverter svc.convert_amount) where
  -- Each active budget of a user has collected what the rows say.
  abbrev pub IsUpToDate : ℕ → Db → Type 0
  IsUpToDate u s =
      All (λ b. of_user u Include.active b ≡ true → b.collected_amount ≡ collected svc conv u s b)
        s.budgets

  -- Ids that are unique, and currencies that have a code.
  abbrev pub IsSound : Db → Type 0
  IsSound s = HasUniqueIds s.budgets × All (λ b. same_text (budget_code s b) "" ≡ false) s.budgets

  abbrev after_task : BudgetTask → Db → Db
  after_task t s = record s { budgets = map (summed svc conv t.user_id s) s.budgets }

  sum_values_unmoved :
      (u : ℕ) (s : Db) (bs : List Budget) (code : String) (rows : List BudgetTransactionRow)
      → sum_values svc conv u (record s { budgets = bs }) code rows
        ≡ sum_values svc conv u s code rows
  unfolding sum_values
  sum_values_unmoved u s bs code [] = refl
  sum_values_unmoved u s bs code (row ∷ rows) =
      rw
        (
          conv.unmoved s bs row.amount row.currency_code code row.date_time,
          sum_values_unmoved u s bs code rows,
        )
        refl

  collected_unmoved :
      (u : ℕ) (s : Db) (bs : List Budget) (b : Budget)
      → collected svc conv u (record s { budgets = bs }) b ≡ collected svc conv u s b
  unfolding collected budget_rows
  collected_unmoved u s bs b = sum_values_unmoved u s bs _ _

  -- Two users of one budget are the same.
  same_user :
      (u w : ℕ) (b : Budget)
      → of_user u Include.active b ≡ true
      → of_user w Include.active b ≡ true
      → u ≡ w
  same_user u w b h k = ground (arith, h, k)

  -- A row that the pass of a user's task has gone over, for the same user or another.
  summed_right :
      (u w : ℕ) (s : Db) (bs : List Budget) (b : Budget)
      → (of_user w Include.active b ≡ true → b.collected_amount ≡ collected svc conv w s b)
        ⊎ (u ≡ w)
      → of_user w Include.active (summed svc conv u s b) ≡ true
      → (summed svc conv u s b).collected_amount
        ≡ collected svc conv w (record s { budgets = bs }) (summed svc conv u s b)
  unfolding collected
  summed_right u w s bs b before = go (of_user u Include.active b) refl
    where
      go :
          (own : Bool)
          → of_user u Include.active b ≡ own
          → of_user w Include.active (if own then set_collected (collected svc conv u s b) b else b)
            ≡ true
          → (if own then set_collected (collected svc conv u s b) b else b).collected_amount
            ≡ collected svc conv w
                (record s { budgets = bs })
                (if own then set_collected (collected svc conv u s b) b else b)
      go true e h =
          ap (λ x. collected svc conv x s b) (same_user u w b e h)
          ∙ sym (collected_unmoved w s bs b)
      go false e h = elim before [
        | inl right ↦ right h ∙ sym (collected_unmoved w s bs b)
        | inr same ↦ cc (subst (λ x. of_user x Include.active b ≡ false) same e)
      ]

  -- A task makes its user's budgets right, and leaves those of the others right.
  task_makes : (t : BudgetTask) (s : Db) → IsUpToDate t.user_id (after_task t s)
  task_makes t s =
      All-map _ (summed svc conv t.user_id s)
        (λ b _. summed_right t.user_id t.user_id s _ b (inr refl)) s.budgets (All-rows s.budgets)

  task_keeps : (t : BudgetTask) (w : ℕ) (s : Db) → IsUpToDate w s → IsUpToDate w (after_task t s)
  task_keeps t w s =
      All-map _ (summed svc conv t.user_id s)
        (λ b right. summed_right t.user_id w s _ b (inl right)) s.budgets

  same_columns :
      (u : ℕ) (s : Db) (b : Budget)
      → ((summed svc conv u s b).id ≡ b.id) × ((summed svc conv u s b).currency_id ≡ b.currency_id)
  same_columns u s b = go (of_user u Include.active b)
    where
      go :
          (own : Bool)
          → ((if own then set_collected (collected svc conv u s b) b else b).id ≡ b.id)
            × ((if own then set_collected (collected svc conv u s b) b else b).currency_id
                ≡ b.currency_id)
      go true = (refl, refl)
      go false = (refl, refl)

  task-IsSound : (t : BudgetTask) (s : Db) → IsSound s → IsSound (after_task t s)
  task-IsSound t s (unique, coded) = (
    HasUniqueIds-map _ (λ b. (same_columns t.user_id s b).0) s.budgets unique,
    All-map _ (summed svc conv t.user_id s)
        (λ b e.
          subst (λ c. same_text (code_of (find_currency c s.currencies)) "" ≡ false)
            (sym (same_columns t.user_id s b).1) e)
        s.budgets coded,
  )

  after_tasks : List BudgetTask → Db → Db
  after_tasks [] s = s
  after_tasks (t ∷ ts) s = after_tasks ts (after_task t s)

  tasks_run :
      (ts : List BudgetTask) (s : Db)
      → IsSound s
      → process_tasks svc ts [] s ≡ (ok tt, [], after_tasks ts s)
  unfolding process_tasks after_tasks ◌>>=◌
  tasks_run [] s sound = refl
  tasks_run (t ∷ ts) s sound =
      rw
        (
          recalculate_collected_amounts-exact svc conv t.user_id s sound.0 sound.1,
          tasks_run ts (after_task t s) (task-IsSound t s sound),
        )
        refl

  tasks_keep :
      (ts : List BudgetTask) (w : ℕ) (s : Db) → IsUpToDate w s → IsUpToDate w (after_tasks ts s)
  unfolding after_tasks
  tasks_keep [] w s h = h
  tasks_keep (t ∷ ts) w s h = tasks_keep ts w (after_task t s) (task_keeps t w s h)

  tasks_make :
      (ts : List BudgetTask) (s : Db) → All (λ t. IsUpToDate t.user_id (after_tasks ts s)) ts
  unfolding after_tasks
  tasks_make [] s = tt
  tasks_make (t ∷ ts) s =
      (tasks_keep ts t.user_id (after_task t s) (task_makes t s), tasks_make ts (after_task t s))

-- Without a fault, in whatever order the tasks stand, the worker brings the budgets of every user of
-- a task up to date: each active one has collected the converted sum of the user's expenses that the
-- table of transactions holds in its range and categories.
pub process_tasks-IsUpToDate :
    (svc : Service) (conv : IsConverter svc.convert_amount) (ts : List BudgetTask) (s : Db)
    → IsSound svc conv s
    → let (r, _, s') = process_tasks svc ts [] s in
      (r ≡ ok tt) × All (λ t. IsUpToDate svc conv t.user_id s') ts
process_tasks-IsUpToDate svc conv ts s sound =
    rw (tasks_run svc conv ts s sound) (refl, tasks_make svc conv ts s)
