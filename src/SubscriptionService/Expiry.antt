-- ===== src/SubscriptionService/Expiry.antt =====
-- ProcessRenewals and ProcessExpiredDowngrades of backend/internal/services/subscription/service.go:
-- loops over the subscriptions that a query found, where an error of one is logged and skipped.
use orgfin_diploma.Prelude.{ℕ, not, Bool, true, false, Option, none, some}
use orgfin_diploma.Models.{Time, PlanType, SubscriptionPlan, SubscriptionRow, Subscription}
use orgfin_diploma.Exec.{Exec, pure, attempt, when, ◌>>=◌, ◌>>◌, for_each}
use orgfin_diploma.Repositories.Plans
use orgfin_diploma.Repositories.Plans.{is_free}
use orgfin_diploma.Repositories.Subscriptions
use orgfin_diploma.SubscriptionService.{Service, apply_downgrade_entity_selection}
use orgfin_diploma.SubscriptionService.Downgrade.{settled_on}

-- An expired trial on the free plan.
abbrev pub ended_trial : SubscriptionPlan → SubscriptionRow → SubscriptionRow
ended_trial free row = record row {
  plan_id = free.id;
  trial_started_at = none;
  trial_ends_at = none;
  is_active = true;
}

abbrev pub deactivated : SubscriptionRow → SubscriptionRow
deactivated row = record row { is_active = false }

-- The cases of the switch.
unfoldable pub renew : SubscriptionRow → PlanType → Bool → Exec (Unit {0})
renew row PlanType.trial stripe =
    attempt (do free ← Plans.get_free_plan; Subscriptions.update (ended_trial free row))
renew row PlanType.premium stripe =
    when (not stripe) (attempt (Subscriptions.update (deactivated row)))
renew row PlanType.free stripe = pure tt

unfoldable pub renew_sub : Subscription → Exec (Unit {0})
renew_sub sub = renew sub.row sub.plan_type sub.has_stripe_subscription

unfoldable pub process_renewals : Time → Exec (Unit {0})
process_renewals now = do
  expired ← Subscriptions.get_expired_subscriptions now
  for_each renew_sub expired

-- The downgrade to the pending plan, and the archiving if that is free.
unfoldable pub apply_pending : Service → Subscription → Option ℕ → Exec (Unit {0})
apply_pending svc sub none = pure tt
apply_pending svc sub (some plan_id) = attempt (do
  plan ← Plans.get_by_id plan_id
  Subscriptions.update_full (settled_on plan sub).row
  when (is_free plan.plan_type) (
      attempt (
        apply_downgrade_entity_selection svc sub.row.user_id sub.row.pending_downgrade_account_ids
          sub.row.pending_downgrade_budget_id)))

unfoldable pub apply_sub : Service → Subscription → Exec (Unit {0})
apply_sub svc sub = apply_pending svc sub sub.row.pending_plan_id

unfoldable pub process_expired_downgrades : Service → Time → Exec (Unit {0})
process_expired_downgrades svc now = do
  pending ← Subscriptions.get_pending_downgrades now
  for_each (apply_sub svc) pending
