-- ===== src/PaymentWebhook/Deletion.antt =====
-- handleSubscriptionDeleted of backend/internal/services/payment/webhook_handler.go, run without a
-- fault.
use orgfin_diploma.Prelude.{
  ◌≡◌, refl, ap, ◌∙◌, false, none, some, [], String, ◌==◌, find_first_passes,
}
use orgfin_diploma.Models.{
  Time, PlanType, SubscriptionPlan, SubscriptionRow, Db, ProviderSubscription,
}
use orgfin_diploma.Exec.{ok, ◌>>=◌}
use orgfin_diploma.Repositories.Plans
use orgfin_diploma.Repositories.Plans.{find_free}
use orgfin_diploma.Repositories.Plans.Free.{HasUniqueIds as HasUniquePlanIds, find_free-found}
use orgfin_diploma.Repositories.Subscriptions
use orgfin_diploma.Repositories.Subscriptions.{
  find, find_by_user, find_external, find_provider, change, change_provider, has_stripe,
  plan_type_of, load_found, load, with_type, is_expired, is_due, set_all, set_provider,
}
use orgfin_diploma.Repositories.Subscriptions.Lookup.{find_by_user-change, plan_type_of-find}
use orgfin_diploma.Repositories.Subscriptions.Providers.{HasUniqueIds, find_first-change}
use orgfin_diploma.PaymentWebhook.{handle_subscription_deleted, delete_found, ended}

-- The provider's row of a Stripe subscription, and the row of the subscription that it is about.
pub record IsLinked (x : String) (s : Db) (p : ProviderSubscription) (row : SubscriptionRow)
    (k : PlanType) : Type 0 where
  pub external : find_external x s.providers ≡ some p
  pub own : find_provider row.id s.providers ≡ some p
  pub row_known : find p.subscription_id s.subscriptions ≡ some row
  pub by_user : find_by_user row.user_id s.subscriptions ≡ some row
  pub typed : plan_type_of row.plan_id s.plans ≡ some k
  pub unique : HasUniqueIds s.providers

abbrev unlinked : ProviderSubscription → ProviderSubscription
unlinked p = record p { external_subscription_id = none; external_schedule_id = none }

module _ (now : Time) (x : String) (s : Db) (p : ProviderSubscription) (row : SubscriptionRow)
    (k : PlanType) (free : SubscriptionPlan) where
  abbrev deleted_db : Db
  deleted_db = record s {
    subscriptions = change row.id (set_all (ended now free row)) s.subscriptions;
    providers = change_provider (unlinked p) s.providers;
  }

  delete_run :
      IsLinked x s p row k
      → find_free s.plans ≡ some free
      → handle_subscription_deleted now x [] s ≡ (ok tt, [], deleted_db)
  unfolding handle_subscription_deleted delete_found ended load_found load with_type
      Subscriptions.get_provider_by_external_id Subscriptions.get_by_id Subscriptions.update_full
      Subscriptions.update_provider Plans.get_free_plan ◌>>=◌
  delete_run link known = rw (link.external, link.row_known, link.typed, known) refl

  ended_free :
      HasUniquePlanIds s.plans
      → find_free s.plans ≡ some free
      → plan_type_of free.id s.plans ≡ some PlanType.free
  ended_free unique known =
      let (plan, again) = find_free-found s.plans free unique known in
      plan_type_of-find free.id s.plans unique again.found ∙ ap some again.type_same

  deleted_provider :
      IsLinked x s p row k → has_stripe (find_provider row.id deleted_db.providers) ≡ false
  unfolding has_stripe find_provider
  deleted_provider link =
      rw
        (find_first-change (λ q. q.subscription_id == row.id) (unlinked p) s.providers link.unique
          link.own refl (find_first_passes (λ q. q.subscription_id == row.id) s.providers link.own))
        refl

-- If Stripe deletes the subscription of a user, then the event is handled without a fault: the user
-- is on the free plan, active, with nothing pending and no Stripe subscription, and no worker will
-- ever find the row expired or due.
pub handle_subscription_deleted-ends :
    (now later : Time) (x : String) (s : Db) (p : ProviderSubscription) (row : SubscriptionRow)
    (k : PlanType) (free : SubscriptionPlan)
    → HasUniquePlanIds s.plans
    → find_free s.plans ≡ some free
    → IsLinked x s p row k
    → let (r, _, s') = handle_subscription_deleted now x [] s in
      (r ≡ ok tt)
      × (find_by_user row.user_id s'.subscriptions ≡ some (ended now free row))
      × (plan_type_of free.id s'.plans ≡ some PlanType.free)
      × (has_stripe (find_provider row.id s'.providers) ≡ false)
      × (is_expired later (ended now free row) ≡ false)
      × (is_due later (ended now free row) ≡ false)
unfolding ended is_expired is_due
handle_subscription_deleted-ends now later x s p row k free unique known link =
    rw (delete_run now x s p row k free link known) (
      refl,
      find_by_user-change row.user_id (set_all (ended now free row)) (λ r. refl) row.id
          s.subscriptions link.by_user refl,
      ended_free now x s p row k free unique known,
      deleted_provider now x s p row k free link,
      refl,
      refl,
    )
