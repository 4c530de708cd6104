-- ===== src/PaymentWebhook/Schedules.antt =====
-- handleScheduleCompleted of backend/internal/services/payment/webhook_handler.go, run without a
-- fault, and the worker behind it.
use orgfin_diploma.Prelude.{ℕ, ◌≡◌, refl, false, Option, none, some, [], String, sym, subst}
use orgfin_diploma.Models.{
  Time, PlanType, SubscriptionPlan, SubscriptionRow, Db, ProviderSubscription, BillingPeriod,
}
use orgfin_diploma.Exec.{ok, ◌>>=◌}
use orgfin_diploma.Repositories.Plans
use orgfin_diploma.Repositories.Subscriptions
use orgfin_diploma.Repositories.Subscriptions.{
  find, find_by_user, find_schedule, change, change_provider, plan_type_of, load_found, load,
  with_type, is_due, set_all,
}
use orgfin_diploma.Repositories.Subscriptions.Lookup.{find_by_user-change}
use orgfin_diploma.PaymentWebhook.{handle_schedule_completed, complete_found, on_pending, on_period}

-- The provider's row of a schedule, the subscription that it is about, and its pending plan.
pub record IsScheduled (x : String) (s : Db) (p : ProviderSubscription) (row : SubscriptionRow)
    (k : PlanType) (i : ℕ) (plan : SubscriptionPlan) : Type 0 where
  pub scheduled : find_schedule x s.providers ≡ some p
  pub row_known : find p.subscription_id s.subscriptions ≡ some row
  pub by_user : find_by_user row.user_id s.subscriptions ≡ some row
  pub typed : plan_type_of row.plan_id s.plans ≡ some k
  pub pending : row.pending_plan_id ≡ some i
  pub plan_known : Plans.find i s.plans ≡ some plan

abbrev pub completed_row : SubscriptionPlan → SubscriptionRow → SubscriptionRow
completed_row plan row = record (on_period plan.billing_period (record row { plan_id = plan.id })) {
  pending_plan_id = none;
}

on_pending_run :
    (pending : Option ℕ) (row : SubscriptionRow) (s : Db) {i : ℕ} {plan : SubscriptionPlan}
    → pending ≡ some i
    → Plans.find i s.plans ≡ some plan
    → on_pending pending row [] s ≡ (ok (completed_row plan row), [], s)
unfolding on_pending Plans.get_by_id ◌>>=◌
on_pending_run none row s h known = cc
on_pending_run (some j) row s {i} {plan} h known =
    let same : j ≡ i = cc h in
    let known' : Plans.find j s.plans ≡ some plan =
      subst (λ n. Plans.find n s.plans ≡ some plan) (sym same) known in
    rw known' refl

completed_kept :
    (period : Option BillingPeriod) (row : SubscriptionRow)
    → ((on_period period row).id ≡ row.id)
      × ((on_period period row).user_id ≡ row.user_id)
      × ((on_period period row).pending_downgrade_account_ids ≡ row.pending_downgrade_account_ids)
      × ((on_period period row).pending_downgrade_budget_id ≡ row.pending_downgrade_budget_id)
      × ((on_period period row).plan_id ≡ row.plan_id)
unfolding on_period
completed_kept none row = (refl, refl, refl, refl, refl)
completed_kept (some period) row = (refl, refl, refl, refl, refl)

module _ (x : String) (s : Db) (p : ProviderSubscription) (row : SubscriptionRow) (k : PlanType)
    (i : ℕ) (plan : SubscriptionPlan) where
  abbrev completed_db : Db
  completed_db = record s {
    subscriptions =
        change (completed_row plan row).id (set_all (completed_row plan row)) s.subscriptions;
    providers = change_provider (record p { external_schedule_id = none }) s.providers;
  }

  complete_run :
      IsScheduled x s p row k i plan → handle_schedule_completed x [] s ≡ (ok tt, [], completed_db)
  unfolding handle_schedule_completed complete_found load_found load with_type
      Subscriptions.get_provider_by_schedule_id Subscriptions.get_by_id Subscriptions.update_full
      Subscriptions.update_provider ◌>>=◌
  complete_run h =
      rw
        (
          h.scheduled,
          h.row_known,
          h.typed,
          on_pending_run row.pending_plan_id row s h.pending h.plan_known,
        )
        refl

-- If the schedule of a subscription with a pending plan completes, then the event is handled without
-- a fault and the subscription is on that plan with nothing pending, but the accounts and the budget
-- that were chosen to be kept stay stored, and the row is never due for ProcessExpiredDowngrades,
-- which alone archives the others.
pub handle_schedule_completed-keeps_selection :
    (x : String) (s : Db) (p : ProviderSubscription) (row : SubscriptionRow) (k : PlanType) (i : ℕ)
    (plan : SubscriptionPlan) (later : Time)
    → IsScheduled x s p row k i plan
    → let (r, _, s') = handle_schedule_completed x [] s in
      (r ≡ ok tt)
      × ((row' : SubscriptionRow) × (find_by_user row.user_id s'.subscriptions ≡ some row')
          × (row'.plan_id ≡ plan.id)
          × (row'.pending_plan_id ≡ none)
          × (row'.pending_downgrade_account_ids ≡ row.pending_downgrade_account_ids)
          × (row'.pending_downgrade_budget_id ≡ row.pending_downgrade_budget_id)
          × (is_due later row' ≡ false))
unfolding is_due
handle_schedule_completed-keeps_selection x s p row k i plan later h =
    let (id, user, ids, kept, on) =
      completed_kept plan.billing_period (record row { plan_id = plan.id }) in
    rw (complete_run x s p row k i plan h) (
      refl,
      (
        set_all (completed_row plan row) row,
        find_by_user-change row.user_id (set_all (completed_row plan row)) (λ r. refl)
            (completed_row plan row).id s.subscriptions h.by_user (sym id),
        on,
        refl,
        ids,
        kept,
        refl,
      ),
    )
