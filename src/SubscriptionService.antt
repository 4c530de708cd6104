-- ===== src/SubscriptionService.antt =====
-- backend/internal/services/subscription/service.go: the rules of the plans, the trial, and what
-- archives a user's accounts and budgets. A day has 24 hours: the clock of the server is UTC.
pub mod Upgrade
pub mod Downgrade
pub mod Status
pub mod Expiry
pub mod Reads
pub mod Rejects
pub mod Transitions
pub mod Renewed
pub mod Trial
pub mod Lapsed
pub mod Stored
pub mod Granted
pub mod Archiving
pub mod Downgraded
pub mod Applied
pub mod Loops
use orgfin_diploma.Prelude.{
  ℕ, ◌+◌, ◌*◌, Bool, true, false, ◌&&◌, Option, none, some, List, [], ◌∷◌, ltb, length, pos,
  if◌then◌else◌,
}
use orgfin_diploma.Models.{
  Time, PlanType, BillingPeriod, SubscriptionPlan, SubscriptionRow, Subscription,
}
use orgfin_diploma.Exec.{Error, Result, ok, err, Exec, pure, lift, ◌>>=◌, ◌>>◌}
use orgfin_diploma.Repositories.Plans
use orgfin_diploma.Repositories.Subscriptions
use orgfin_diploma.Repositories.Subscriptions.{is_past}

pub record Limits : Type 0 where
  pub accounts : ℕ
  pub budgets : ℕ
  pub planning_days : ℕ

-- PlanLimits; `none` is unlimited.
unfoldable pub plan_limits : PlanType → Option Limits
plan_limits PlanType.free = some (record { accounts = 2; budgets = 1; planning_days = 14 })
plan_limits PlanType.trial = none
plan_limits PlanType.premium = none

-- The configuration, and the archivers, which are interfaces that may not be set.
pub record Service : Type 0 where
  pub account_archiver : Option (ℕ → List ℕ → Exec (Unit {0}))
  pub budget_archiver : Option (ℕ → Option ℕ → Exec (Unit {0}))
  pub trial_duration_days : ℕ

-- AddDate(0, 0, n), in microseconds.
unfoldable pub add_days : Time → ℕ → Time
add_days t n = t + n * 86400000000

-- GetEffectivePlanType
unfoldable pub effective_type : Time → PlanType → Option Time → Option Time → PlanType
effective_type now PlanType.free trial_ends_at expires_at = PlanType.free
effective_type now PlanType.trial trial_ends_at expires_at =
    if is_past now trial_ends_at then PlanType.free else PlanType.trial
effective_type now PlanType.premium trial_ends_at expires_at =
    if is_past now expires_at then PlanType.free else PlanType.premium

unfoldable pub get_effective_plan_type : Time → Subscription → PlanType
get_effective_plan_type now sub =
    effective_type now sub.plan_type sub.row.trial_ends_at sub.row.expires_at

-- validatePlanTransition, from the current plan type to the target.
unfoldable pub validate_plan_transition : PlanType → PlanType → Result (Unit {0})
validate_plan_transition PlanType.free PlanType.free = err Error.same_plan
validate_plan_transition PlanType.trial PlanType.trial = err Error.same_plan
validate_plan_transition PlanType.premium PlanType.premium = err Error.same_plan
validate_plan_transition PlanType.free PlanType.trial = err Error.invalid_plan_transition
validate_plan_transition PlanType.premium PlanType.trial = err Error.invalid_plan_transition
validate_plan_transition PlanType.trial PlanType.free = err Error.invalid_plan_transition
validate_plan_transition PlanType.premium PlanType.free = err Error.downgrade_not_allowed
validate_plan_transition PlanType.free PlanType.premium = ok tt
validate_plan_transition PlanType.trial PlanType.premium = ok tt

-- ApplyDowngradeEntitySelection past the test of the archivers.
unfoldable pub archive_with :
    Option (ℕ → List ℕ → Exec (Unit {0}))
    → Option (ℕ → Option ℕ → Exec (Unit {0}))
    → ℕ
    → List ℕ
    → Option ℕ
    → Exec (Unit {0})
archive_with none budgets user_id account_ids budget_id = pure tt
archive_with (some accounts) none user_id account_ids budget_id = pure tt
archive_with (some accounts) (some budgets) user_id account_ids budget_id = do
  accounts user_id account_ids
  budgets user_id budget_id

unfoldable pub apply_downgrade_entity_selection : Service → ℕ → List ℕ → Option ℕ → Exec (Unit {0})
apply_downgrade_entity_selection svc = archive_with svc.account_archiver svc.budget_archiver

abbrev pub is_trial : PlanType → Bool
is_trial PlanType.free = false
is_trial PlanType.trial = true
is_trial PlanType.premium = false

-- findTrialPlan, on the active plans.
unfoldable pub find_trial_plan : List SubscriptionPlan → Result SubscriptionPlan
find_trial_plan [] = err Error.no_trial_plan
find_trial_plan (p ∷ ps) = if is_trial p.plan_type then ok p else find_trial_plan ps

-- A row whose other columns are the zero values.
abbrev pub new_row : ℕ → ℕ → SubscriptionRow
new_row user_id plan_id = record {
  id = 0;
  user_id = user_id;
  plan_id = plan_id;
  current_billing_period_id = none;
  trial_started_at = none;
  trial_ends_at = none;
  subscribed_at = none;
  expires_at = none;
  auto_renew = false;
  canceled_at = none;
  pending_plan_id = none;
  pending_downgrade_account_ids = [];
  pending_downgrade_budget_id = none;
  is_active = true;
}

unfoldable pub trial_row : Service → Time → ℕ → SubscriptionPlan → SubscriptionRow
trial_row svc now user_id plan = record (new_row user_id plan.id) {
  trial_started_at = some now;
  trial_ends_at = some (add_days now svc.trial_duration_days);
}

unfoldable pub create_trial_subscription : Service → Time → ℕ → Exec (Unit {0})
create_trial_subscription svc now user_id = do
  plans ← Plans.get_active_plans
  plan ← lift (find_trial_plan plans)
  Subscriptions.create (trial_row svc now user_id plan)
  pure tt
