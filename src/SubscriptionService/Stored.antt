-- ===== src/SubscriptionService/Stored.antt =====
-- What Upgrade of backend/internal/services/subscription/service.go stores, run without a fault.
use orgfin_diploma.Prelude.{
  ℕ, ◌≡◌, refl, ap, ◌∙◌, Bool, true, false, Option, none, some, [], ◌∷◌, ◌==◌, ◌+◌,
}
use orgfin_diploma.Models.{
  Time, PlanType, BillingPeriod, SubscriptionPlan, SubscriptionRow, Subscription, Db,
}
use orgfin_diploma.Exec.{ok, ◌>>=◌}
use orgfin_diploma.Repositories.Plans
use orgfin_diploma.Repositories.Plans.{find, is_free}
use orgfin_diploma.Repositories.Subscriptions
use orgfin_diploma.Repositories.Subscriptions.{
  change, set_some, load_found, load, with_type, plan_type_of, has_stripe, find_provider,
  find_by_user,
}
use orgfin_diploma.Repositories.Subscriptions.Lookup.{create_run, find_by_user-change}
use orgfin_diploma.SubscriptionService.{
  new_row, add_days, effective_type, get_effective_plan_type, validate_plan_transition,
}
use orgfin_diploma.SubscriptionService.Upgrade.{
  ChangeType, UpgradeResult, upgrade, upgrade_from, subscribe, change_plan, apply_change, moved_to,
  with_period, determine_change_type,
}

pub period_kept :
    (now : Time) (period : Option BillingPeriod) (row : SubscriptionRow)
    → ((with_period now period row).user_id ≡ row.user_id)
      × ((with_period now period row).plan_id ≡ row.plan_id)
unfolding with_period
period_kept now none row = (refl, refl)
period_kept now (some period) row = (refl, refl)

module _ (now : Time) (u : ℕ) (s : Db) (target : SubscriptionPlan) where
  -- The row of a first subscription.
  abbrev pub first_row : SubscriptionRow
  first_row = record (with_period now target.billing_period (new_row u target.id)) {
    id = s.next_subscription_id;
  }

  abbrev pub first_db : Db
  first_db = record s {
    subscriptions = first_row ∷ s.subscriptions;
    next_subscription_id = s.next_subscription_id + 1;
  }

  abbrev pub first_subscription : Subscription
  first_subscription = record {
    row = first_row;
    plan_type = target.plan_type;
    has_stripe_subscription = false;
  }

  pub subscribe_run :
      (p : ℕ)
      → find_by_user u s.subscriptions ≡ none
      → find p s.plans ≡ some target
      → upgrade now u p [] s ≡ (
        ok (record { change_type = ChangeType.upgrade_type; subscription = first_subscription }),
        [],
        first_db,
      )
  unfolding upgrade upgrade_from subscribe load_found Subscriptions.get_by_user_id Plans.get_by_id
      ◌>>=◌
  subscribe_run p absent known =
      rw
        (
          absent,
          known,
          create_run (with_period now target.billing_period (new_row u target.id)) s (
              ap (λ n. find_by_user n s.subscriptions)
                (period_kept now target.billing_period (new_row u target.id)).0
              ∙ absent),
        )
        refl

pub loaded :
    (s : Db) (row : SubscriptionRow) (k : PlanType)
    → plan_type_of row.plan_id s.plans ≡ some k
    → find_provider row.id s.providers ≡ none
    → load s row ≡ some (record { row = row; plan_type = k; has_stripe_subscription = false })
unfolding load with_type has_stripe
loaded s row k typed alone = rw (typed, alone) refl

-- A user with a subscription, the plan it names, and a premium target that Upgrade accepts.
pub record MayUpgrade (now : Time) (u p : ℕ) (s : Db) (row : SubscriptionRow) (k : PlanType)
    (current target : SubscriptionPlan) (period : BillingPeriod) : Type 0 where
  pub found : find_by_user u s.subscriptions ≡ some row
  pub typed : plan_type_of row.plan_id s.plans ≡ some k
  pub current_known : find row.plan_id s.plans ≡ some current
  pub target_known : find p s.plans ≡ some target
  pub premium : target.plan_type ≡ PlanType.premium
  pub allowed :
      validate_plan_transition
        (effective_type now k row.trial_ends_at row.expires_at)
        PlanType.premium
      ≡ ok tt
  pub other : (row.plan_id == p) ≡ false
  pub period_known : target.billing_period ≡ some period

-- The columns of an upgrade that are stored: not the billing period.
abbrev pub upgraded_row :
    Time → SubscriptionPlan → BillingPeriod → SubscriptionRow → SubscriptionRow
upgraded_row now target period row = record row {
  plan_id = target.id;
  subscribed_at = some now;
  expires_at = some (add_days now period.duration_days);
  is_active = true;
}

-- The subscription of the answer.
abbrev answered : Time → SubscriptionPlan → BillingPeriod → SubscriptionRow → Bool → Subscription
answered now target period row stripe = record {
  row = record (upgraded_row now target period row) { current_billing_period_id = some period.id };
  plan_type = target.plan_type;
  has_stripe_subscription = stripe;
}

module _ (now : Time) (u p : ℕ) (s : Db) (row : SubscriptionRow) (k : PlanType)
    (current target : SubscriptionPlan) (period : BillingPeriod)
    (may : MayUpgrade now u p s row k current target period) where
  abbrev upgraded_db : Db
  upgraded_db = record s {
    subscriptions = change row.id (set_some (upgraded_row now target period row)) s.subscriptions;
  }

  abbrev upgrade_answer : UpgradeResult
  upgrade_answer = record {
    change_type = determine_change_type current.billing_period target.billing_period;
    subscription = answered now target period row (has_stripe (find_provider row.id s.providers));
  }

  upgrade_run : upgrade now u p [] s ≡ (ok upgrade_answer, [], upgraded_db)
  unfolding upgrade upgrade_from change_plan apply_change moved_to with_period load_found load
      with_type get_effective_plan_type Subscriptions.get_by_user_id Subscriptions.update
      Plans.get_by_id ◌>>=◌
  upgrade_run =
      rw
        (
          may.found, may.typed, may.target_known, may.current_known, may.premium, may.allowed,
          may.other, may.period_known,
        )
        refl

-- If Upgrade of a subscription is allowed and the premium target has a billing period, then it
-- succeeds without a fault and the new period starts now. The answer names the billing period of the
-- target, but the stored row keeps the billing period that it had.
pub upgrade-keeps_period :
    (now : Time) (u p : ℕ) (s : Db) (row : SubscriptionRow) (k : PlanType)
    (current target : SubscriptionPlan) (period : BillingPeriod)
    → MayUpgrade now u p s row k current target period
    → let (r, _, s1) = upgrade now u p [] s in
      ((answer : UpgradeResult) × (r ≡ ok answer)
        × (answer.subscription.row.current_billing_period_id ≡ some period.id)
        × (answer.subscription.row.expires_at ≡ some (add_days now period.duration_days)))
      × (find_by_user u s1.subscriptions ≡ some (upgraded_row now target period row))
upgrade-keeps_period now u p s row k current target period may =
    rw (upgrade_run now u p s row k current target period may) (
      (upgrade_answer now u p s row k current target period may, refl, refl, refl),
      find_by_user-change u (set_some (upgraded_row now target period row)) (λ r. refl) row.id
          s.subscriptions may.found refl,
    )
