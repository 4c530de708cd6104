-- ===== src/Examples/Subscriptions.antt =====
-- The results on the subscription service, each at a concrete database.
use orgfin_diploma.Prelude.{◌≡◌, refl, [], ◌∷◌, map, none, some, true, false, arith, ◌≢◌}
use orgfin_diploma.Models.{PlanType, Subscription, Db}
use orgfin_diploma.Exec.{Error, ok, err, ◌>>=◌}
use orgfin_diploma.Repositories.Plans
use orgfin_diploma.Repositories.Plans.{find, is_free, sort_by_order, insert_by_order}
use orgfin_diploma.Repositories.Subscriptions
use orgfin_diploma.Repositories.Subscriptions.{
  find_by_user, load_found, load, with_type, plan_type_of, has_stripe, find_provider, is_expired,
  is_due, change, set_some,
}
use orgfin_diploma.SubscriptionService.{
  effective_type, get_effective_plan_type, validate_plan_transition, add_days,
}
use orgfin_diploma.SubscriptionService.Upgrade.{
  UpgradeResult, ChangeType, upgrade, upgrade_from, change_plan, apply_change, moved_to,
  with_period, determine_change_type,
}
use orgfin_diploma.SubscriptionService.Downgrade.{schedule_downgrade}
use orgfin_diploma.SubscriptionService.Expiry.{process_renewals, process_expired_downgrades}
use orgfin_diploma.SubscriptionService.Transitions.{upgrade-moves_up}
use orgfin_diploma.SubscriptionService.Renewed.{renewed_row, process_renewals-exact}
use orgfin_diploma.SubscriptionService.Downgraded.{
  downgraded_row, settled_row, process_expired_downgrades-exact,
}
use orgfin_diploma.SubscriptionService.Applied.{
  IsSubscribed, pending_row, schedule_downgrade-applies,
}
use orgfin_diploma.Examples.Plans.{
  office, free_plan, paid_row, tried_row, free_row, service, service-ArchivesOnly, office_unique,
  office_unique_plans, free_known,
}

-- User 1 has a premium plan already.
same_run : (upgrade 100 1 4 [] office).0 ≡ err Error.same_plan
unfolding upgrade upgrade_from change_plan load_found load with_type plan_type_of find_by_user find
    has_stripe find_provider get_effective_plan_type effective_type validate_plan_transition
    Subscriptions.get_by_user_id Plans.get_by_id ◌>>=◌
same_run = refl

-- User 3 goes from the free plan to the monthly one.
abbrev free_subscription : Subscription
free_subscription = record {
  row = free_row;
  plan_type = PlanType.free;
  has_stripe_subscription = false;
}

abbrev up_result : UpgradeResult
up_result = record {
  change_type = ChangeType.upgrade_type;
  subscription = record {
    row = record free_row {
      plan_id = 3;
      current_billing_period_id = some 1;
      subscribed_at = some 100;
      expires_at = some (add_days 100 30);
    };
    plan_type = PlanType.premium;
    has_stripe_subscription = false;
  };
}

free_loaded : load_found office (find_by_user 3 office.subscriptions) ≡ some free_subscription
unfolding load_found load with_type plan_type_of find_by_user has_stripe find_provider
free_loaded = refl

up_run : (upgrade 100 3 3 [] office).0 ≡ ok up_result
unfolding upgrade upgrade_from change_plan apply_change moved_to with_period determine_change_type
    load_found load with_type plan_type_of find_by_user find has_stripe find_provider
    get_effective_plan_type effective_type validate_plan_transition Subscriptions.get_by_user_id
    Subscriptions.update Plans.get_by_id ◌>>=◌
up_run = refl

upgrade-moves_up_example :
    (up_result.subscription.plan_type ≡ PlanType.premium)
    × (get_effective_plan_type 100 free_subscription ≢ PlanType.premium)
    × (free_row.plan_id ≢ 3)
upgrade-moves_up_example =
    upgrade-moves_up 100 3 3 [] office free_subscription up_result free_loaded up_run

-- Without Stripe, the plan of user 1 is switched off.
abbrev unlinked_office : Db
unlinked_office = record office { providers = [] }

process_renewals-exact_example :
    let (r, _, s') = process_renewals 1000 [] unlinked_office in
    (r ≡ ok tt)
    × (s'.subscriptions ≡ map (renewed_row 1000 unlinked_office) unlinked_office.subscriptions)
process_renewals-exact_example = process_renewals-exact 1000 unlinked_office office_unique

-- User 1 waits for a downgrade.
abbrev waiting_office : Db
waiting_office = record office {
  subscriptions = pending_row free_plan (7 ∷ []) none paid_row ∷ tried_row ∷ free_row ∷ [];
}

process_expired_downgrades-exact_example :
    let (r, _, s') = process_expired_downgrades service 1000 [] waiting_office in
    (r ≡ ok tt)
    × (s'.subscriptions ≡ map (downgraded_row 1000 waiting_office) waiting_office.subscriptions)
    × (s'.plans ≡ waiting_office.plans)
process_expired_downgrades-exact_example =
    process_expired_downgrades-exact service 1000 waiting_office service-ArchivesOnly office_unique

paid-IsSubscribed : IsSubscribed 100 1 office paid_row PlanType.premium true
unfolding find_by_user plan_type_of has_stripe find_provider effective_type is_free
paid-IsSubscribed = record { found = refl; typed = refl; provided = refl; paid = refl }

schedule_downgrade-applies_example :
    let (r, _, s1) = schedule_downgrade service 100 1 (7 ∷ []) none [] office in
    let (r', _, s2) = process_expired_downgrades service 600 [] s1 in
    (r ≡ ok (record { scheduled = true; expires_at = some 500 }))
    × (find_by_user 1 s1.subscriptions ≡ some (pending_row free_plan (7 ∷ []) none paid_row))
    × (r' ≡ ok tt)
    × (find_by_user 1 s2.subscriptions ≡ some (settled_row free_plan paid_row))
schedule_downgrade-applies_example =
    schedule_downgrade-applies service 100 600 1 (7 ∷ []) none office paid_row PlanType.premium
      free_plan service-ArchivesOnly office_unique office_unique_plans (omega arith) free_known
      paid-IsSubscribed refl
