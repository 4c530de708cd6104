-- ===== src/Examples/Webhooks.antt =====
-- The results on the events of the payment provider, and on what they and the methods lead to, each
-- at a concrete database.
use orgfin_diploma.Prelude.{◌≡◌, refl, [], ◌∷◌, none, some, true, false, arith}
use orgfin_diploma.Models.{PlanType, SubscriptionRow, Db}
use orgfin_diploma.Exec.{Error, ok, err}
use orgfin_diploma.Repositories.Plans
use orgfin_diploma.Repositories.Subscriptions.{
  find, find_by_user, find_external, find_schedule, find_provider, plan_type_of, has_stripe,
  is_expired, is_due,
}
use orgfin_diploma.SubscriptionService.Applied.{pending_row}
use orgfin_diploma.PaymentWebhook.{
  PaymentProvider, Event, handle_subscription_deleted, handle_schedule_completed, ended,
  handle_webhook,
}
use orgfin_diploma.PaymentWebhook.Deletion.{IsLinked, handle_subscription_deleted-ends}
use orgfin_diploma.PaymentWebhook.Schedules.{IsScheduled, handle_schedule_completed-keeps_selection}
use orgfin_diploma.SubscriptionService.Downgrade.{schedule_downgrade}
use orgfin_diploma.Lifecycle.{Reach, here, next, downgrades, receives}
use orgfin_diploma.Lifecycle.Selections.{HasFewSelected}
use orgfin_diploma.Lifecycle.Reached.{Reach-HasFewSelected}
use orgfin_diploma.Examples.Plans.{
  office, free_plan, paid_row, tried_row, free_row, stripe_row, service, service-KeepsSelections,
  office_unique_plans, office_unique_providers, free_known,
}

external_found : find_external "sub_1" office.providers ≡ some stripe_row
unfolding find_external
external_found = refl

paid-IsLinked : IsLinked "sub_1" office stripe_row paid_row PlanType.premium
unfolding find_external find_provider find find_by_user plan_type_of
paid-IsLinked = record {
  external = refl;
  own = refl;
  row_known = refl;
  by_user = refl;
  typed = refl;
  unique = office_unique_providers;
}

handle_subscription_deleted-ends_example :
    let (r, _, s') = handle_subscription_deleted 200 "sub_1" [] office in
    (r ≡ ok tt)
    × (find_by_user 1 s'.subscriptions ≡ some (ended 200 free_plan paid_row))
    × (plan_type_of 1 s'.plans ≡ some PlanType.free)
    × (has_stripe (find_provider 1 s'.providers) ≡ false)
    × (is_expired 900 (ended 200 free_plan paid_row) ≡ false)
    × (is_due 900 (ended 200 free_plan paid_row) ≡ false)
handle_subscription_deleted-ends_example =
    handle_subscription_deleted-ends 200 900 "sub_1" office stripe_row paid_row PlanType.premium
      free_plan office_unique_plans free_known paid-IsLinked

-- User 1 waits for a downgrade that keeps account 7.
abbrev waiting : SubscriptionRow
waiting = pending_row free_plan (7 ∷ []) none paid_row

abbrev waiting_office : Db
waiting_office = record office { subscriptions = waiting ∷ tried_row ∷ free_row ∷ [] }

waiting-IsScheduled :
    IsScheduled "sched_1" waiting_office stripe_row waiting PlanType.premium 1 free_plan
unfolding find_schedule find find_by_user plan_type_of Plans.find
waiting-IsScheduled = record {
  scheduled = refl;
  row_known = refl;
  by_user = refl;
  typed = refl;
  pending = refl;
  plan_known = refl;
}

handle_schedule_completed-keeps_selection_example :
    let (r, _, s') = handle_schedule_completed "sched_1" [] waiting_office in
    (r ≡ ok tt)
    × ((row' : SubscriptionRow) × (find_by_user 1 s'.subscriptions ≡ some row')
        × (row'.plan_id ≡ 1)
        × (row'.pending_plan_id ≡ none)
        × (row'.pending_downgrade_account_ids ≡ 7 ∷ [])
        × (row'.pending_downgrade_budget_id ≡ none)
        × (is_due 900 row' ≡ false))
handle_schedule_completed-keeps_selection_example =
    handle_schedule_completed-keeps_selection "sched_1" waiting_office stripe_row waiting
      PlanType.premium 1 free_plan 900 waiting-IsScheduled

-- A provider that accepts everything, and takes every payload for a completed schedule.
abbrev provider : PaymentProvider
provider = record {
  verifies = λ payload signature. true;
  parse_event = λ payload. some (Event.schedule_completed (some "sched_1"));
  get_subscription = λ id. err Error.provider_failure;
}

abbrev asked : Db
asked = (schedule_downgrade service 100 1 (7 ∷ 8 ∷ []) none [] office).2

abbrev completed : Db
completed = (handle_webhook provider 200 "payload" "signature" [] asked).2

two_steps : Reach service provider office completed
two_steps =
    next (next here (downgrades 100 1 (7 ∷ 8 ∷ []) none [] refl))
      (receives 200 "payload" "signature" [] refl)

office_few : HasFewSelected office
office_few = ground arith

Reach-HasFewSelected_example : HasFewSelected completed
Reach-HasFewSelected_example =
    Reach-HasFewSelected service provider service-KeepsSelections office completed two_steps
      office_few
