-- ===== src/Lifecycle/Reached.antt =====
-- What holds of every database that the methods and the events lead to.
use orgfin_diploma.Prelude.{◌≡◌, sym, subst}
use orgfin_diploma.Models.{Db}
use orgfin_diploma.Exec.{Exec, Faults}
use orgfin_diploma.Exec.Keeps.{Keeps}
use orgfin_diploma.SubscriptionService.{Service}
use orgfin_diploma.PaymentWebhook.{PaymentProvider}
use orgfin_diploma.Lifecycle.{
  Step, asks_status, upgrades, downgrades, starts_trial, renews, expires, receives, Reach, here,
  next,
}
use orgfin_diploma.Lifecycle.Selections.{HasFewSelected}
use orgfin_diploma.Lifecycle.Methods.{
  KeepsSelections, get_status-few, upgrade-few, schedule_downgrade-few,
  create_trial_subscription-few, process_renewals-few, process_expired_downgrades-few,
}
use orgfin_diploma.Lifecycle.Events.{handle_webhook-few}

after :
    {A : Type 0} (m : Exec A) (fs : Faults) (s s' : Db)
    → Keeps HasFewSelected m
    → s' ≡ (m fs s).2
    → HasFewSelected s
    → HasFewSelected s'
after m fs s s' h e few = subst HasFewSelected (sym e) (h.at fs s few)

step_few :
    (svc : Service) (provider : PaymentProvider)
    → KeepsSelections svc
    → (s s' : Db) → Step svc provider s s'
    → HasFewSelected s
    → HasFewSelected s'
step_few svc provider safe s s' (asks_status now u fs e) = after _ fs s s' (get_status-few now u) e
step_few svc provider safe s s' (upgrades now u p fs e) = after _ fs s s' (upgrade-few now u p) e
step_few svc provider safe s s' (downgrades now u ids kept fs e) =
    after _ fs s s' (schedule_downgrade-few svc safe now u ids kept) e
step_few svc provider safe s s' (starts_trial now u fs e) =
    after _ fs s s' (create_trial_subscription-few svc now u) e
step_few svc provider safe s s' (renews now fs e) = after _ fs s s' (process_renewals-few now) e
step_few svc provider safe s s' (expires now fs e) =
    after _ fs s s' (process_expired_downgrades-few svc safe now) e
step_few svc provider safe s s' (receives now payload signature fs e) =
    after _ fs s s' (handle_webhook-few provider now payload signature) e

-- If no subscription keeps more than two accounts past its pending downgrade, then none does after
-- any series of calls of the subscription service, runs of its workers and events of the payment
-- provider, at any times and whatever calls of the database fail. The archivers, if they are set,
-- must not add to the accounts that a subscription keeps.
pub Reach-HasFewSelected :
    (svc : Service) (provider : PaymentProvider)
    → KeepsSelections svc
    → (s t : Db) → Reach svc provider s t
    → HasFewSelected s
    → HasFewSelected t
Reach-HasFewSelected svc provider safe s t here few = few
Reach-HasFewSelected svc provider safe s u (next {t} path step) few =
    step_few svc provider safe t u step (Reach-HasFewSelected svc provider safe s t path few)
