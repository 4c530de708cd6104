-- ===== src/SubscriptionService/Downgrade.antt =====
-- ScheduleDowngrade of backend/internal/services/subscription/service.go. The message of the result
-- is left out.
use orgfin_diploma.Prelude.{ℕ, Bool, true, false, Option, none, some, List, [], ltb, length}
use orgfin_diploma.Models.{Time, PlanType, SubscriptionPlan, Subscription}
use orgfin_diploma.Exec.{Error, Exec, pure, raise_if, no_rows_as, attempt, ◌>>=◌, ◌>>◌}
use orgfin_diploma.Repositories.Plans
use orgfin_diploma.Repositories.Plans.{is_free}
use orgfin_diploma.Repositories.Subscriptions
use orgfin_diploma.SubscriptionService.{
  Service, Limits, plan_limits, get_effective_plan_type, apply_downgrade_entity_selection,
}

pub record DowngradeResult : Type 0 where
  pub scheduled : Bool
  pub expires_at : Option Time

abbrev pub exceeds : Option Limits → List ℕ → Bool
exceeds none account_ids = false
exceeds (some limits) account_ids = ltb limits.accounts (length account_ids)

-- The subscription with the pending downgrade.
unfoldable pub with_pending : SubscriptionPlan → List ℕ → Option ℕ → Subscription → Subscription
with_pending free account_ids budget_id sub = record sub {
  row = record sub.row {
    pending_plan_id = some free.id;
    pending_downgrade_account_ids = account_ids;
    pending_downgrade_budget_id = budget_id;
  };
}

-- The subscription on another plan, with no downgrade pending.
unfoldable pub settled_on : SubscriptionPlan → Subscription → Subscription
settled_on plan sub = record sub {
  row = record sub.row {
    plan_id = plan.id;
    pending_plan_id = none;
    pending_downgrade_account_ids = [];
    pending_downgrade_budget_id = none;
    is_active = true;
  };
  plan_type = plan.plan_type;
}

-- With a Stripe subscription the downgrade is stored, without one it is applied.
unfoldable pub store_downgrade :
    Service → ℕ → List ℕ → Option ℕ → SubscriptionPlan → Subscription → Bool → Exec DowngradeResult
store_downgrade svc user_id account_ids budget_id free sub true = do
  Subscriptions.update_full (with_pending free account_ids budget_id sub).row
  pure (record { scheduled = true; expires_at = sub.row.expires_at })
store_downgrade svc user_id account_ids budget_id free sub false = do
  Subscriptions.update_full (settled_on free (with_pending free account_ids budget_id sub)).row
  attempt (apply_downgrade_entity_selection svc user_id account_ids budget_id)
  pure (record { scheduled = false; expires_at = none })

unfoldable pub schedule_downgrade : Service → Time → ℕ → List ℕ → Option ℕ → Exec DowngradeResult
schedule_downgrade svc now user_id account_ids budget_id = do
  sub ← no_rows_as Error.already_on_free_plan (Subscriptions.get_by_user_id user_id)
  raise_if (is_free (get_effective_plan_type now sub)) Error.already_on_free_plan
  raise_if (exceeds (plan_limits PlanType.free) account_ids) Error.invalid_entity_selection
  free ← Plans.get_free_plan
  store_downgrade svc user_id account_ids budget_id free sub sub.has_stripe_subscription
