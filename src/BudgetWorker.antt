-- ===== src/BudgetWorker.antt =====
-- The worker of backend/internal/workers/tasks/budget_update.go, which takes the tasks that the
-- service of transactions queues. The queue's library runs a task that fails again: a retry is a
-- further task of the list.
pub mod UpToDate
use orgfin_diploma.BudgetService.Recalc.{recalculate_collected_amounts}
use orgfin_diploma.Models.{BudgetTask}
use orgfin_diploma.Exec.{◌>>=◌, Exec, pure, ◌>>◌, attempt}
use orgfin_diploma.BudgetService.{Service}
use orgfin_diploma.Prelude.{List, ◌∷◌, []}

-- ProcessTask of a payload that parses.
unfoldable pub process_task : Service → BudgetTask → Exec (Unit {0})
process_task svc t = recalculate_collected_amounts svc t.user_id

-- The tasks of a queue, one after the other; an error leaves the others alone.
unfoldable pub process_tasks : Service → List BudgetTask → Exec (Unit {0})
unfolding process_task ◌>>=◌
process_tasks svc [] = pure tt
process_tasks svc (t ∷ ts) = do attempt (process_task svc t); process_tasks svc ts
