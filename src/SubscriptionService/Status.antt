-- ===== src/SubscriptionService/Status.antt =====
-- GetStatus of backend/internal/services/subscription/service.go, with the downgrade of an expired
-- trial.
use orgfin_diploma.Prelude.{ℕ, ◌+◌, ◌-◌, ◌/◌, Bool, true, false, Option, none, some, String, ltb}
use orgfin_diploma.Models.{Time, PlanType, SubscriptionPlan, Subscription}
use orgfin_diploma.Exec.{Exec, pure, optional, try, ◌>>=◌, ◌>>◌}
use orgfin_diploma.Repositories.Plans
use orgfin_diploma.Repositories.Plans.{is_free}
use orgfin_diploma.Repositories.Counts
use orgfin_diploma.Repositories.Subscriptions
use orgfin_diploma.Repositories.Subscriptions.{is_past}
use orgfin_diploma.SubscriptionService.{Limits, plan_limits, get_effective_plan_type}

pub record SubscriptionStatus : Type 0 where
  pub plan_type : PlanType
  pub is_active : Bool
  pub plan_id : ℕ
  pub requires_downgrade : Bool
  pub limits : Option Limits
  pub trial_days_remaining : Option ℕ
  pub subscribed_at : Option Time
  pub expires_at : Option Time
  pub pending_plan_id : Option ℕ
  pub pending_plan_name : Option String
  pub has_stripe_subscription : Bool

unfoldable pub default_free_status : SubscriptionStatus
default_free_status = record {
  plan_type = PlanType.free;
  is_active = true;
  plan_id = 0;
  requires_downgrade = false;
  limits = plan_limits PlanType.free;
  trial_days_remaining = none;
  subscribed_at = none;
  expires_at = none;
  pending_plan_id = none;
  pending_plan_name = none;
  has_stripe_subscription = false;
}

-- checkRequiresDowngrade past the count of accounts.
unfoldable pub exceeds_limits : Limits → ℕ → Bool → Exec Bool
exceeds_limits limits user_id true = pure true
exceeds_limits limits user_id false = do
  budgets ← Counts.count_budgets user_id
  pure (ltb limits.budgets budgets)

unfoldable pub check_limits : Option Limits → ℕ → Exec Bool
check_limits none user_id = pure false
check_limits (some limits) user_id = do
  accounts ← Counts.count_accounts user_id
  exceeds_limits limits user_id (ltb limits.accounts accounts)

unfoldable pub check_requires_downgrade : ℕ → Exec Bool
check_requires_downgrade = check_limits (plan_limits PlanType.free)

-- An answer that was not available counts as no.
abbrev or_false : Option Bool → Bool
or_false none = false
or_false (some b) = b

unfoldable pub on_free_plan : SubscriptionPlan → Subscription → Subscription
on_free_plan free sub = record sub {
  row = record sub.row { plan_id = free.id; is_active = true };
  plan_type = PlanType.free;
}

unfoldable pub downgrade_to_free : Subscription → Exec Subscription
downgrade_to_free sub = do
  free ← Plans.get_free_plan
  Subscriptions.update (on_free_plan free sub).row
  pure (on_free_plan free sub)

unfoldable pub build_free_status : Subscription → Exec SubscriptionStatus
build_free_status sub = do
  answer ← try (check_requires_downgrade sub.row.user_id)
  pure (record default_free_status {
    plan_id = sub.row.plan_id;
    requires_downgrade = or_false answer;
    subscribed_at = sub.row.subscribed_at;
    has_stripe_subscription = sub.has_stripe_subscription;
  })

-- The days until the end of the trial, a part of a day counting as one; none are negative.
unfoldable pub days_until : Time → Time → ℕ
days_until now ends = (ends - now + 86399999999) / 86400000000

unfoldable pub trial_days : Time → PlanType → Option Time → Option ℕ
trial_days now PlanType.free ends = none
trial_days now PlanType.premium ends = none
trial_days now PlanType.trial none = none
trial_days now PlanType.trial (some ends) = some (days_until now ends)

-- Only a user on the free plan is asked about.
unfoldable pub asked : Bool → ℕ → Exec (Option Bool)
asked true user_id = try (check_requires_downgrade user_id)
asked false user_id = pure none

abbrev name_of : Option SubscriptionPlan → Option String
name_of none = none
name_of (some plan) = some plan.name

unfoldable pub pending_name : Option ℕ → Exec (Option String)
pending_name none = pure none
pending_name (some plan_id) = do plan ← try (Plans.get_by_id plan_id); pure (name_of plan)

unfoldable pub current_status : Time → Subscription → Exec SubscriptionStatus
current_status now sub = do
  answer ← asked (is_free (get_effective_plan_type now sub)) sub.row.user_id
  name ← pending_name sub.row.pending_plan_id
  pure (record {
    plan_type = get_effective_plan_type now sub;
    is_active = sub.row.is_active;
    plan_id = sub.row.plan_id;
    requires_downgrade = or_false answer;
    limits = plan_limits (get_effective_plan_type now sub);
    trial_days_remaining = trial_days now sub.plan_type sub.row.trial_ends_at;
    subscribed_at = sub.row.subscribed_at;
    expires_at = sub.row.expires_at;
    pending_plan_id = sub.row.pending_plan_id;
    pending_plan_name = name;
    has_stripe_subscription = sub.has_stripe_subscription;
  })

-- A trial past its end.
unfoldable pub is_expired_trial : Time → PlanType → Option Time → Bool
is_expired_trial now PlanType.free ends = false
is_expired_trial now PlanType.premium ends = false
is_expired_trial now PlanType.trial ends = is_past now ends

unfoldable pub status_if : Time → Subscription → Bool → Exec SubscriptionStatus
status_if now sub true = do sub' ← downgrade_to_free sub; build_free_status sub'
status_if now sub false = current_status now sub

unfoldable pub status_of : Time → Option Subscription → Exec SubscriptionStatus
status_of now none = pure default_free_status
status_of now (some sub) =
    status_if now sub (is_expired_trial now sub.plan_type sub.row.trial_ends_at)

unfoldable pub get_status : Time → ℕ → Exec SubscriptionStatus
get_status now user_id = do
  found ← optional (Subscriptions.get_by_user_id user_id)
  status_of now found
