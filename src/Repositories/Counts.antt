-- ===== src/Repositories/Counts.antt =====
-- CountActiveByUserID of backend/internal/repositories/account.go and of budget.go.
use orgfin_diploma.Prelude.{ℕ, not, ◌&&◌, ◌==◌, keep, length}
use orgfin_diploma.Exec.{Exec, ok, query}

-- SELECT COUNT(*) … WHERE user_id = u AND is_deleted = false AND is_archived = false
unfoldable pub count_accounts : ℕ → Exec ℕ
count_accounts u = query λ s.
    ok (length (keep (λ a. a.user_id == u && (not a.is_deleted && not a.is_archived)) s.accounts))

unfoldable pub count_budgets : ℕ → Exec ℕ
count_budgets u = query λ s.
    ok (length (keep (λ b. b.user_id == u && (not b.is_deleted && not b.is_archived)) s.budgets))
