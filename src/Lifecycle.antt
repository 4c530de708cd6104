-- ===== src/Lifecycle.antt =====
-- The subscriptions of all users over time: the methods of
-- backend/internal/services/subscription/service.go, whose workers run ProcessRenewals and
-- ProcessExpiredDowngrades, and the events that
-- backend/internal/services/payment/webhook_handler.go handles, in any order, at any times and with
-- any calls of the database failing.
pub mod Selections
pub mod Methods
pub mod Events
pub mod Reached
use orgfin_diploma.Prelude.{ℕ, Option, List, String, ◌≡◌}
use orgfin_diploma.Models.{Time, Db}
use orgfin_diploma.Exec.{Faults}
use orgfin_diploma.SubscriptionService.{Service, create_trial_subscription}
use orgfin_diploma.SubscriptionService.Status.{get_status}
use orgfin_diploma.SubscriptionService.Upgrade.{upgrade}
use orgfin_diploma.SubscriptionService.Downgrade.{schedule_downgrade}
use orgfin_diploma.SubscriptionService.Expiry.{process_renewals, process_expired_downgrades}
use orgfin_diploma.PaymentWebhook.{PaymentProvider, handle_webhook}

-- One call, from a database to the one that it leaves.
pub data Step (svc : Service) (provider : PaymentProvider) (s : Db) (s' : Db) : Type 0 where
  asks_status :
      (now : Time) (u : ℕ) (fs : Faults) → s' ≡ (get_status now u fs s).2 → Step svc provider s s'
  upgrades :
      (now : Time) (u p : ℕ) (fs : Faults) → s' ≡ (upgrade now u p fs s).2 → Step svc provider s s'
  downgrades :
      (now : Time) (u : ℕ) (ids : List ℕ) (kept : Option ℕ) (fs : Faults)
      → s' ≡ (schedule_downgrade svc now u ids kept fs s).2
      → Step svc provider s s'
  starts_trial :
      (now : Time) (u : ℕ) (fs : Faults)
      → s' ≡ (create_trial_subscription svc now u fs s).2
      → Step svc provider s s'
  renews : (now : Time) (fs : Faults) → s' ≡ (process_renewals now fs s).2 → Step svc provider s s'
  expires :
      (now : Time) (fs : Faults)
      → s' ≡ (process_expired_downgrades svc now fs s).2
      → Step svc provider s s'
  receives :
      (now : Time) (payload signature : String) (fs : Faults)
      → s' ≡ (handle_webhook provider now payload signature fs s).2
      → Step svc provider s s'

pub data Reach (svc : Service) (provider : PaymentProvider) (s : Db) : Db → Type 0 where
  here : Reach svc provider s s
  next : {t u : Db} → Reach svc provider s t → Step svc provider t u → Reach svc provider s u
