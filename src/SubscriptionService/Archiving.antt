-- ===== src/SubscriptionService/Archiving.antt =====
-- ApplyDowngradeEntitySelection of backend/internal/services/subscription/service.go, run without a
-- fault. Its archivers are interfaces that no code of the repository implements.
use orgfin_diploma.Prelude.{ℕ, ◌≡◌, refl, ◌∙◌, Option, none, some, List, []}
use orgfin_diploma.Models.{Db}
use orgfin_diploma.Exec.{Result, ok, err, Exec, attempt, ◌>>=◌, ◌>>◌}
use orgfin_diploma.SubscriptionService.{Service, archive_with, apply_downgrade_entity_selection}
use orgfin_diploma.SubscriptionService.Loops.{Stores}

-- A run that writes neither subscriptions nor plans, whether it succeeds or not.
pub record Leaves (m : Exec (Unit {0})) (s : Db) : Type 0 where
  pub answer : Result (Unit {0})
  pub after : Db
  pub run : m [] s ≡ (answer, [], after)
  pub rows_same : after.subscriptions ≡ s.subscriptions
  pub plans_same : after.plans ≡ s.plans

-- The archivers, where they are set, write accounts and budgets only.
pub record ArchivesOnly (svc : Service) : Type 0 where
  pub accounts :
      (m : ℕ → List ℕ → Exec (Unit {0}))
      → svc.account_archiver ≡ some m
      → (u : ℕ) (ids : List ℕ) (s : Db) → Leaves (m u ids) s
  pub budgets :
      (m : ℕ → Option ℕ → Exec (Unit {0}))
      → svc.budget_archiver ≡ some m
      → (u : ℕ) (kept : Option ℕ) (s : Db) → Leaves (m u kept) s

after_accounts :
    (m n : Exec (Unit {0})) (s : Db) (first : Leaves m s) (answer : Result (Unit {0}))
    → m [] s ≡ (answer, [], first.after)
    → Leaves n first.after
    → Stores (attempt (m >> n)) s s.subscriptions
unfolding ◌>>=◌
after_accounts m n s first (ok u) run second = record {
  after = second.after;
  run = rw run (rw second.run refl);
  rows_same = second.rows_same ∙ first.rows_same;
  plans_same = second.plans_same ∙ first.plans_same;
}
after_accounts m n s first (err e) run second = record {
  after = first.after;
  run = rw run refl;
  rows_same = first.rows_same;
  plans_same = first.plans_same;
}

archive_body :
    (svc : Service) (u : ℕ) (ids : List ℕ) (kept : Option ℕ) (s : Db)
    (a : Option (ℕ → List ℕ → Exec (Unit {0}))) (b : Option (ℕ → Option ℕ → Exec (Unit {0})))
    → svc.account_archiver ≡ a
    → svc.budget_archiver ≡ b
    → ArchivesOnly svc
    → Stores (attempt (archive_with a b u ids kept)) s s.subscriptions
unfolding archive_with ◌>>=◌
archive_body svc u ids kept s none b ha hb only = record {
  after = s;
  run = refl;
  rows_same = refl;
  plans_same = refl;
}
archive_body svc u ids kept s (some m) none ha hb only = record {
  after = s;
  run = refl;
  rows_same = refl;
  plans_same = refl;
}
archive_body svc u ids kept s (some m) (some n) ha hb only =
    let first = only.accounts m ha u ids s in
    after_accounts (m u ids) (n u kept) s first first.answer first.run
      (only.budgets n hb u kept first.after)

pub selection_body :
    (svc : Service) (u : ℕ) (ids : List ℕ) (kept : Option ℕ) (s : Db)
    → ArchivesOnly svc
    → Stores (attempt (apply_downgrade_entity_selection svc u ids kept)) s s.subscriptions
unfolding apply_downgrade_entity_selection
selection_body svc u ids kept s only =
    archive_body svc u ids kept s svc.account_archiver svc.budget_archiver refl refl only
