-- ===== src/Examples/Trials.antt =====
-- The results on trials and on what Upgrade stores, each at a concrete database.
use orgfin_diploma.SubscriptionService.Granted.{IsOnPlan, upgrade-grants}
use orgfin_diploma.Prelude.{◌≡◌, refl, [], none, some, Bool, ltb, ◌+◌, ◌*◌, if◌then◌else◌}
use orgfin_diploma.Models.{PlanType}
use orgfin_diploma.Exec.{ok}
use orgfin_diploma.Repositories.Plans.{find}
use orgfin_diploma.Repositories.Subscriptions.{find_by_user, plan_type_of, find_provider}
use orgfin_diploma.SubscriptionService.{effective_type, validate_plan_transition}
use orgfin_diploma.SubscriptionService.Upgrade.{upgrade, UpgradeResult}
use orgfin_diploma.SubscriptionService.Status.{get_status, SubscriptionStatus}
use orgfin_diploma.SubscriptionService.Lapsed.{free_status, lapsed_row, get_status-lapses}
use orgfin_diploma.SubscriptionService.Stored.{MayUpgrade}
use orgfin_diploma.Examples.Plans.{
  office, month, monthly, free_plan, tried_row, free_row, office_unique_plans, free_known,
}

-- User 4 has no subscription.
nobody : find_by_user 4 office.subscriptions ≡ none
unfolding find_by_user
nobody = refl

tried_found : find_by_user 2 office.subscriptions ≡ some tried_row
unfolding find_by_user
tried_found = refl

tried_typed : plan_type_of 2 office.plans ≡ some PlanType.trial
unfolding plan_type_of
tried_typed = refl

get_status-lapses_example :
    let (r, _, s1) = get_status 200 2 [] office in
    let (_, _, s2) = get_status 300 2 [] s1 in
    (r ≡ ok (free_status 200 2 office tried_row free_plan))
    × (find_by_user 2 s1.subscriptions ≡ some (lapsed_row free_plan tried_row))
    × (s2 ≡ s1)
get_status-lapses_example =
    get_status-lapses 200 300 2 office tried_row free_plan office_unique_plans tried_found
      tried_typed refl free_known

monthly_known : find 3 office.plans ≡ some monthly
unfolding find
monthly_known = refl

monthly_typed : plan_type_of 3 office.plans ≡ some PlanType.premium
unfolding plan_type_of
monthly_typed = refl

unlinked : find_provider 4 office.providers ≡ none
unfolding find_provider
unlinked = refl

upgrade-grants_example :
    let (r, _, s1) = upgrade 200 4 3 [] office in
    let (r', _, s2) = get_status 2592000000201 4 [] s1 in
    let over : Bool = ltb (200 + 30 * 86400000000) 2592000000201 in
    ((answer : UpgradeResult) × (r ≡ ok answer))
    × ((status : SubscriptionStatus) × (r' ≡ ok status)
        × IsOnPlan (if over then PlanType.free else PlanType.premium) status)
    × (s2 ≡ s1)
upgrade-grants_example =
    upgrade-grants 200 2592000000201 4 3 office monthly month nobody monthly_known monthly_typed
      unlinked refl refl

free-MayUpgrade : MayUpgrade 200 3 3 office free_row PlanType.free free_plan monthly month
unfolding find_by_user plan_type_of find effective_type validate_plan_transition
free-MayUpgrade = record {
  found = refl;
  typed = refl;
  current_known = refl;
  target_known = refl;
  premium = refl;
  allowed = refl;
  other = refl;
  period_known = refl;
}
