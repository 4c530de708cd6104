-- ===== src/SubscriptionService/Rejects.antt =====
-- The errors of Upgrade and ScheduleDowngrade of
-- backend/internal/services/subscription/service.go.
use orgfin_diploma.SubscriptionService.Reads.{plan_reads}
use orgfin_diploma.Prelude.{ℕ, ◌≡◌, ◌≢◌, Option, none, some, List, Bool, true, false}
use orgfin_diploma.Models.{Time, Subscription, SubscriptionPlan, Db}
use orgfin_diploma.Exec.{Error, err, Faults}
use orgfin_diploma.Exec.Failing.{
  FailsOnFault, RejectsEarly, RejectsEarly-bind, RejectsEarly-checked, fails_on_fault,
}
use orgfin_diploma.Repositories.Subscriptions
use orgfin_diploma.SubscriptionService.{Service}
use orgfin_diploma.SubscriptionService.Upgrade.{
  upgrade, upgrade_from, change_plan, subscribe, apply_change,
}
use orgfin_diploma.SubscriptionService.Downgrade.{schedule_downgrade, store_downgrade}

FailsOnFault-apply_change :
    (now : Time) (current target : SubscriptionPlan) (sub : Subscription)
    → FailsOnFault (apply_change now current target sub)
unfolding apply_change Subscriptions.update
FailsOnFault-apply_change now current target sub = search fails_on_fault

RejectsEarly-upgrade_from :
    (now : Time) (u p : ℕ) (found : Option Subscription) → RejectsEarly (upgrade_from now u p found)
unfolding upgrade_from subscribe change_plan Subscriptions.create
RejectsEarly-upgrade_from now u p none =
    RejectsEarly-bind _ _ (search plan_reads) (λ target. search fails_on_fault)
RejectsEarly-upgrade_from now u p (some sub) =
    RejectsEarly-checked _ _ (search plan_reads) (λ target.
      RejectsEarly-checked _ _ (search plan_reads) (λ current.
        RejectsEarly-checked _ _ (search plan_reads) (λ _.
          RejectsEarly-bind _ _ (search plan_reads)
            (λ _. FailsOnFault-apply_change now current target sub))))

-- An error of Upgrade other than one of the database leaves the database as it was, whatever calls
-- of the database fail.
pub upgrade-rejects :
    (now : Time) (u p : ℕ) (fs : Faults) (s : Db) (e : Error)
    → (upgrade now u p fs s).0 ≡ err e
    → e ≢ Error.db_failure
    → (upgrade now u p fs s).2 ≡ s
unfolding upgrade
upgrade-rejects now u p =
    (RejectsEarly-checked _ _ (search plan_reads) (RejectsEarly-upgrade_from now u p)).at

FailsOnFault-store :
    (svc : Service) (u : ℕ) (ids : List ℕ) (b : Option ℕ) (free : SubscriptionPlan)
    (sub : Subscription) (stripe : Bool)
    → FailsOnFault (store_downgrade svc u ids b free sub stripe)
unfolding store_downgrade Subscriptions.update_full
FailsOnFault-store svc u ids b free sub true = search fails_on_fault
FailsOnFault-store svc u ids b free sub false = search fails_on_fault

-- An error of ScheduleDowngrade other than one of the database leaves the database as it was,
-- whatever calls of the database fail and whatever the archivers do.
pub schedule_downgrade-rejects :
    (svc : Service) (now : Time) (u : ℕ) (ids : List ℕ) (b : Option ℕ) (fs : Faults) (s : Db)
    (e : Error)
    → (schedule_downgrade svc now u ids b fs s).0 ≡ err e
    → e ≢ Error.db_failure
    → (schedule_downgrade svc now u ids b fs s).2 ≡ s
unfolding schedule_downgrade
schedule_downgrade-rejects svc now u ids b =
    (RejectsEarly-checked _ _ (search plan_reads) (λ sub.
      RejectsEarly-checked _ _ (search plan_reads) (λ _.
        RejectsEarly-checked _ _ (search plan_reads) (λ _.
          RejectsEarly-bind _ _ (search plan_reads)
            (λ free. FailsOnFault-store svc u ids b free sub sub.has_stripe_subscription))))).at
