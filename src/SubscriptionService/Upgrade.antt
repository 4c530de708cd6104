-- ===== src/SubscriptionService/Upgrade.antt =====
-- Upgrade of backend/internal/services/subscription/service.go. The message of the result, which
-- names the plan, is left out.
use orgfin_diploma.Prelude.{ℕ, Option, none, some, leb, ◌==◌, false, true, if◌then◌else◌}
use orgfin_diploma.Models.{Time, BillingPeriod, SubscriptionPlan, SubscriptionRow, Subscription}
use orgfin_diploma.Exec.{Error, Exec, pure, lift, raise_if, no_rows_as, optional, ◌>>=◌, ◌>>◌}
use orgfin_diploma.Repositories.Plans
use orgfin_diploma.Repositories.Subscriptions
use orgfin_diploma.SubscriptionService.{
  add_days, get_effective_plan_type, validate_plan_transition, new_row,
}

pub data ChangeType : Type 0 where
  upgrade_type plan_change_type : ChangeType

pub record UpgradeResult : Type 0 where
  pub change_type : ChangeType
  pub subscription : Subscription

-- determineChangeType, on the billing periods of the current plan and of the target.
unfoldable pub determine_change_type : Option BillingPeriod → Option BillingPeriod → ChangeType
determine_change_type none target = ChangeType.upgrade_type
determine_change_type (some current) none = ChangeType.upgrade_type
determine_change_type (some current) (some target) =
    if leb current.duration_days target.duration_days
    then ChangeType.upgrade_type
    else ChangeType.plan_change_type

-- The billing period of the target plan, if it has one, starts now.
unfoldable pub with_period : Time → Option BillingPeriod → SubscriptionRow → SubscriptionRow
with_period now none row = row
with_period now (some period) row = record row {
  current_billing_period_id = some period.id;
  subscribed_at = some now;
  expires_at = some (add_days now period.duration_days);
}

-- The branch without a subscription. The instants are those of the stored row, to the microsecond.
unfoldable pub subscribe : Time → ℕ → ℕ → Exec UpgradeResult
subscribe now user_id plan_id = do
  target ← no_rows_as Error.plan_not_found (Plans.get_by_id plan_id)
  row ← Subscriptions.create (with_period now target.billing_period (new_row user_id target.id))
  pure (record {
    change_type = ChangeType.upgrade_type;
    subscription = record {
      row = row;
      plan_type = target.plan_type;
      has_stripe_subscription = false;
    };
  })

-- The subscription on the target plan.
unfoldable pub moved_to : Time → SubscriptionPlan → Subscription → Subscription
moved_to now target sub = record sub {
  row =
      with_period now target.billing_period
        (record sub.row { plan_id = target.id; is_active = true });
  plan_type = target.plan_type;
}

-- What Upgrade does once the checks have passed.
unfoldable pub apply_change :
    Time → SubscriptionPlan → SubscriptionPlan → Subscription → Exec UpgradeResult
apply_change now current target sub = do
  Subscriptions.update (moved_to now target sub).row
  pure (record {
    change_type = determine_change_type current.billing_period target.billing_period;
    subscription = moved_to now target sub;
  })

-- The branch with a subscription.
unfoldable pub change_plan : Time → ℕ → Subscription → Exec UpgradeResult
change_plan now plan_id sub = do
  target ← no_rows_as Error.plan_not_found (Plans.get_by_id plan_id)
  current ← Plans.get_by_id sub.row.plan_id
  lift (validate_plan_transition (get_effective_plan_type now sub) target.plan_type)
  raise_if (sub.row.plan_id == plan_id) Error.same_plan
  apply_change now current target sub

unfoldable pub upgrade_from : Time → ℕ → ℕ → Option Subscription → Exec UpgradeResult
upgrade_from now user_id plan_id none = subscribe now user_id plan_id
upgrade_from now user_id plan_id (some sub) = change_plan now plan_id sub

unfoldable pub upgrade : Time → ℕ → ℕ → Exec UpgradeResult
upgrade now user_id plan_id = do
  found ← optional (Subscriptions.get_by_user_id user_id)
  upgrade_from now user_id plan_id found
