-- ===== src/Examples/Plans.antt =====
-- One database with the four plans that backend/scripts/db-setup/seeds.sql inserts. User 1 pays
-- monthly through Stripe until 500, user 2 has a trial until 100, user 3 is on the free plan; user 4
-- has no subscription.
use orgfin_diploma.Prelude.{
  ℕ, ◌≡◌, refl, subst, pos, negsuc, ℤ, List, [], ◌∷◌, none, some, true, false, Option, arith,
}
use orgfin_diploma.Models.{
  PlanType, BillingPeriod, SubscriptionPlan, SubscriptionRow, ProviderSubscription, Db, empty_db,
}
use orgfin_diploma.Exec.{ok, err, Error, Exec}
use orgfin_diploma.Exec.Keeps.{Keeps}
use orgfin_diploma.Lifecycle.Selections.{HasFewSelected}
use orgfin_diploma.Lifecycle.Methods.{KeepsSelections}
use orgfin_diploma.Repositories.Plans.{find_free, is_free}
use orgfin_diploma.Repositories.Plans.Free.{HasUniqueIds as HasUniquePlanIds}
use orgfin_diploma.Repositories.Subscriptions.Sweep.{HasUniqueIds}
use orgfin_diploma.Repositories.Subscriptions.Providers.{HasUniqueIds as HasUniqueProviderIds}
use orgfin_diploma.SubscriptionService.{Service, new_row}
use orgfin_diploma.SubscriptionService.Archiving.{ArchivesOnly, Leaves}

abbrev plan : ℕ → PlanType → ℤ → Option BillingPeriod → SubscriptionPlan
plan i k order period = record {
  id = i;
  name = "plan";
  plan_type = k;
  sort_order = order;
  billing_period = period;
  is_active = true;
  is_deleted = false;
}

abbrev pub month : BillingPeriod
month = record { id = 1; duration_days = 30 }

abbrev pub free_plan : SubscriptionPlan
free_plan = plan 1 PlanType.free (pos 0) none

abbrev pub trial_plan : SubscriptionPlan
trial_plan = plan 2 PlanType.trial (negsuc 0) none

abbrev pub monthly : SubscriptionPlan
monthly = plan 3 PlanType.premium (pos 1) (some month)

abbrev pub yearly : SubscriptionPlan
yearly = plan 4 PlanType.premium (pos 2) (some (record { id = 2; duration_days = 365 }))

abbrev pub paid_row : SubscriptionRow
paid_row = record (new_row 1 3) {
  id = 1;
  current_billing_period_id = some 1;
  subscribed_at = some 10;
  expires_at = some 500;
  auto_renew = true;
}

abbrev pub tried_row : SubscriptionRow
tried_row = record (new_row 2 2) { id = 2; trial_started_at = some 10; trial_ends_at = some 100 }

abbrev pub free_row : SubscriptionRow
free_row = record (new_row 3 1) { id = 3 }

abbrev pub stripe_row : ProviderSubscription
stripe_row = record {
  id = 1;
  subscription_id = 1;
  external_customer_id = some "cus_1";
  external_subscription_id = some "sub_1";
  external_schedule_id = some "sched_1";
  payment_method_id = none;
  last_payment_failed = false;
}

abbrev pub office : Db
office = record empty_db {
  plans = free_plan ∷ trial_plan ∷ monthly ∷ yearly ∷ [];
  subscriptions = paid_row ∷ tried_row ∷ free_row ∷ [];
  providers = stripe_row ∷ [];
  next_subscription_id = 4;
  next_provider_id = 2;
}

-- An archiver of accounts that finds nothing to archive, and one of budgets that fails.
abbrev archive_none : ℕ → List ℕ → Exec (Unit {0})
archive_none u ids fs s = (ok tt, fs, s)

abbrev archive_fails : ℕ → Option ℕ → Exec (Unit {0})
archive_fails u kept fs s = (err Error.db_failure, fs, s)

abbrev pub service : Service
service = record {
  account_archiver = some archive_none;
  budget_archiver = some archive_fails;
  trial_duration_days = 45;
}

pub service-ArchivesOnly : ArchivesOnly service
service-ArchivesOnly = record {
  accounts = λ m e u ids s.
      let same : archive_none ≡ m = cc e in
      subst (λ f. Leaves (f u ids) s) same
        (record { answer = ok tt; after = s; run = refl; rows_same = refl; plans_same = refl });
  budgets = λ m e u kept s.
      let same : archive_fails ≡ m = cc e in
      subst (λ f. Leaves (f u kept) s) same
        (record {
          answer = err Error.db_failure;
          after = s;
          run = refl;
          rows_same = refl;
          plans_same = refl;
        });
}

pub service-KeepsSelections : KeepsSelections service
service-KeepsSelections = record {
  accounts = λ m e u ids.
      let same : archive_none ≡ m = cc e in
      subst (λ f. Keeps HasFewSelected (f u ids)) same (record { at = λ fs s few. few });
  budgets = λ m e u kept.
      let same : archive_fails ≡ m = cc e in
      subst (λ f. Keeps HasFewSelected (f u kept)) same (record { at = λ fs s few. few });
}

pub office_unique : HasUniqueIds office.subscriptions
office_unique = ground arith

pub office_unique_plans : HasUniquePlanIds office.plans
office_unique_plans = ground arith

pub office_unique_providers : HasUniqueProviderIds office.providers
office_unique_providers = ground arith

pub free_known : find_free office.plans ≡ some free_plan
unfolding find_free is_free
free_known = refl
