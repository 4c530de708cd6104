-- ===== src/Lifecycle/Methods.antt =====
-- The methods of backend/internal/services/subscription/service.go keep the number of accounts that
-- pending downgrades keep within the limit.
use orgfin_diploma.Prelude.{
  ℕ, ◌∷◌, refl, ◌≡◌, ◌≤◌, Bool, true, false, Option, none, some, List, [], length, arith, ltb,
}
use orgfin_diploma.Models.{
  Time, PlanType, SubscriptionPlan, SubscriptionRow, Subscription, BillingPeriod,
}
use orgfin_diploma.Exec.{Exec, for_each}
use orgfin_diploma.Exec.Rules.{IsReadOnly}
use orgfin_diploma.Exec.Answers.{Ensures-raise_if}
use orgfin_diploma.Exec.Keeps.{
  Keeps, Keeps-read, Keeps-bind, Keeps-bind_ensured, Keeps-attempt, Keeps-pure,
}
use orgfin_diploma.Repositories.Subscriptions
use orgfin_diploma.SubscriptionService.{
  Service, plan_limits, create_trial_subscription, trial_row, archive_with,
  apply_downgrade_entity_selection, new_row,
}
use orgfin_diploma.SubscriptionService.Reads.{plan_reads}
use orgfin_diploma.SubscriptionService.Status.{
  get_status, status_of, status_if, downgrade_to_free, build_free_status,
}
use orgfin_diploma.SubscriptionService.Lapsed.{IsReadOnly-check, IsReadOnly-current}
use orgfin_diploma.SubscriptionService.Upgrade.{
  upgrade, upgrade_from, subscribe, change_plan, apply_change, with_period,
}
use orgfin_diploma.SubscriptionService.Downgrade.{
  schedule_downgrade, store_downgrade, exceeds, with_pending, settled_on,
}
use orgfin_diploma.SubscriptionService.Expiry.{
  renew, renew_sub, process_renewals, apply_pending, apply_sub, process_expired_downgrades,
}
use orgfin_diploma.Lifecycle.Selections.{
  HasFewAccounts, HasFewSelected, few_selected, update_full-HasFewSelected, create-HasFewSelected,
}

IsReadOnly-build : (sub : Subscription) → IsReadOnly (build_free_status sub)
unfolding build_free_status
IsReadOnly-build sub = search (plan_reads, IsReadOnly-check)

status_few :
    (now : Time) (sub : Subscription) (b : Bool) → Keeps HasFewSelected (status_if now sub b)
unfolding status_if downgrade_to_free
status_few now sub true = search (few_selected, IsReadOnly-build) depth 12
status_few now sub false = Keeps-read _ (IsReadOnly-current now sub)

status_of_few :
    (now : Time) (found : Option Subscription) → Keeps HasFewSelected (status_of now found)
unfolding status_of
status_of_few now none = search few_selected
status_of_few now (some sub) = status_few now sub _

pub get_status-few : (now : Time) (u : ℕ) → Keeps HasFewSelected (get_status now u)
unfolding get_status
get_status-few now u = search (few_selected, status_of_few)

with_period_few :
    (now : Time) (period : Option BillingPeriod) (row : SubscriptionRow)
    → HasFewAccounts row
    → HasFewAccounts (with_period now period row)
unfolding with_period
with_period_few now none row few = few
with_period_few now (some period) row few = few

upgrade_from_few :
    (now : Time) (u p : ℕ) (found : Option Subscription)
    → Keeps HasFewSelected (upgrade_from now u p found)
unfolding upgrade_from subscribe change_plan apply_change
upgrade_from_few now u p none = Keeps-bind _ _ (search few_selected) λ target.
    Keeps-bind _ _
      (create-HasFewSelected _
        (with_period_few now target.billing_period (new_row u target.id) (omega arith)))
      (λ row. search few_selected)
upgrade_from_few now u p (some sub) = search few_selected depth 12

pub upgrade-few : (now : Time) (u p : ℕ) → Keeps HasFewSelected (upgrade now u p)
unfolding upgrade
upgrade-few now u p = search (few_selected, upgrade_from_few)

pub create_trial_subscription-few :
    (svc : Service) (now : Time) (u : ℕ)
    → Keeps HasFewSelected (create_trial_subscription svc now u)
unfolding create_trial_subscription trial_row
create_trial_subscription-few svc now u = Keeps-bind _ _ (search few_selected) λ plans.
    Keeps-bind _ _ (search few_selected)
      λ plan. Keeps-bind _ _ (create-HasFewSelected _ (omega arith)) (λ row. search few_selected)

-- A loop whose body keeps the number does so too.
for_each_few :
    {A : Type 0} (body : A → Exec (Unit {0}))
    → ((a : A) → Keeps HasFewSelected (body a))
    → (xs : List A) → Keeps HasFewSelected (for_each body xs)
unfolding for_each
for_each_few body h [] = Keeps-pure tt
for_each_few body h (x ∷ xs) = Keeps-bind _ _ (h x) (λ _. for_each_few body h xs)

renew_few :
    (row : SubscriptionRow) (k : PlanType) (stripe : Bool)
    → Keeps HasFewSelected (renew row k stripe)
unfolding renew
renew_few row PlanType.free stripe = search few_selected
renew_few row PlanType.trial stripe = search few_selected
renew_few row PlanType.premium stripe = search few_selected

pub process_renewals-few : (now : Time) → Keeps HasFewSelected (process_renewals now)
unfolding process_renewals renew_sub Subscriptions.get_expired_subscriptions
process_renewals-few now =
    Keeps-bind _ _ (search few_selected) (for_each_few _ (λ sub. renew_few sub.row sub.plan_type _))

-- A choice that ScheduleDowngrade accepts.
allowed : (ids : List ℕ) → exceeds (plan_limits PlanType.free) ids ≡ false → length ids ≤ 2
unfolding plan_limits
allowed ids h = few_of (length ids) h
  where
    few_of : (n : ℕ) → ltb 2 n ≡ false → n ≤ 2
    few_of n h = ground arith

-- The archivers, if they are set, keep the number as well.
pub record KeepsSelections (svc : Service) : Type 0 where
  pub accounts :
      (m : ℕ → List ℕ → Exec (Unit {0}))
      → svc.account_archiver ≡ some m
      → (u : ℕ) (ids : List ℕ) → Keeps HasFewSelected (m u ids)
  pub budgets :
      (m : ℕ → Option ℕ → Exec (Unit {0}))
      → svc.budget_archiver ≡ some m
      → (u : ℕ) (kept : Option ℕ) → Keeps HasFewSelected (m u kept)

module _ (svc : Service) (safe : KeepsSelections svc) where
  archive_few :
      (a : Option (ℕ → List ℕ → Exec (Unit {0}))) (b : Option (ℕ → Option ℕ → Exec (Unit {0})))
      → svc.account_archiver ≡ a
      → svc.budget_archiver ≡ b
      → (u : ℕ) (ids : List ℕ) (kept : Option ℕ)
      → Keeps HasFewSelected (archive_with a b u ids kept)
  unfolding archive_with
  archive_few none b ha hb u ids kept = Keeps-pure tt
  archive_few (some m) none ha hb u ids kept = Keeps-pure tt
  archive_few (some m) (some n) ha hb u ids kept =
      Keeps-bind _ _ (safe.accounts m ha u ids) (λ _. safe.budgets n hb u kept)

  selection_few :
      (u : ℕ) (ids : List ℕ) (kept : Option ℕ)
      → Keeps HasFewSelected (apply_downgrade_entity_selection svc u ids kept)
  unfolding apply_downgrade_entity_selection
  selection_few u ids kept =
      archive_few svc.account_archiver svc.budget_archiver refl refl u ids kept

  store_few :
      (u : ℕ) (ids : List ℕ) (kept : Option ℕ) (free : SubscriptionPlan) (sub : Subscription)
      (stripe : Bool)
      → length ids ≤ 2
      → Keeps HasFewSelected (store_downgrade svc u ids kept free sub stripe)
  unfolding store_downgrade with_pending settled_on
  store_few u ids kept free sub true few =
      Keeps-bind _ _ (update_full-HasFewSelected _ few) (λ _. search few_selected)
  store_few u ids kept free sub false few =
      Keeps-bind _ _ (update_full-HasFewSelected _ (omega arith))
        (λ _. search (few_selected, selection_few))

  pub schedule_downgrade-few :
      (now : Time) (u : ℕ) (ids : List ℕ) (kept : Option ℕ)
      → Keeps HasFewSelected (schedule_downgrade svc now u ids kept)
  unfolding schedule_downgrade
  schedule_downgrade-few now u ids kept = Keeps-bind _ _ (search few_selected) λ sub.
      Keeps-bind _ _ (search few_selected) λ _.
        Keeps-bind_ensured _ _ (Ensures-raise_if _ _) (search few_selected) λ _ few.
          Keeps-bind _ _ (search few_selected)
            (λ free. store_few u ids kept free sub _ (allowed ids few))

  pending_few :
      (sub : Subscription) (pending : Option ℕ)
      → Keeps HasFewSelected (apply_pending svc sub pending)
  unfolding apply_pending settled_on
  pending_few sub none = Keeps-pure tt
  pending_few sub (some p) = Keeps-attempt _ (
      Keeps-bind _ _ (search few_selected) λ plan.
        Keeps-bind _ _ (update_full-HasFewSelected _ (omega arith))
          (λ _. search (few_selected, selection_few)))

  pub process_expired_downgrades-few :
      (now : Time) → Keeps HasFewSelected (process_expired_downgrades svc now)
  unfolding process_expired_downgrades apply_sub Subscriptions.get_pending_downgrades
  process_expired_downgrades-few now =
      Keeps-bind _ _ (search few_selected)
        (for_each_few _ (λ sub. pending_few sub sub.row.pending_plan_id))
