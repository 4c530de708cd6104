-- ===== src/Lifecycle/Events.antt =====
-- The events that backend/internal/services/payment/webhook_handler.go handles keep the number of
-- accounts that pending downgrades keep within the limit.
use orgfin_diploma.Prelude.{ℕ, Bool, true, false, Option, none, some, String, arith}
use orgfin_diploma.Models.{
  Time, BillingPeriod, SubscriptionPlan, PlanPrice, SubscriptionRow, ProviderSubscription,
}
use orgfin_diploma.Exec.Answers.{Ensures, Ensures-pure, Ensures-bind}
use orgfin_diploma.Exec.Keeps.{Keeps, Keeps-bind, Keeps-bind_answer, Keeps-bind_ensured}
use orgfin_diploma.Repositories.Plans
use orgfin_diploma.Repositories.Subscriptions
use orgfin_diploma.PaymentWebhook.{
  PaymentProvider, CheckoutSession, StripeSubscription, Status, Event, on_period, link_provider,
  checked_out, handle_checkout_session_completed, on_plan, on_price, with_price, cancel_state,
  status_active, synchronized, update_found, handle_subscription_updated, ended, delete_found,
  handle_subscription_deleted, flag_found, flag_unless, handle_invoice, on_pending, complete_found,
  handle_schedule_completed, release_found, handle_schedule_released, handle_event, process,
  handle_verified, handle_webhook,
}
use orgfin_diploma.Lifecycle.Selections.{
  HasFewAccounts, HasFewSelected, few_selected, get_by_id-IsSmall, update_full-HasFewSelected,
}

period_few :
    (period : Option BillingPeriod) (row : SubscriptionRow)
    → HasFewAccounts row
    → HasFewAccounts (on_period period row)
unfolding on_period
period_few none row few = few
period_few (some period) row few = few

link_few :
    (id : ℕ) (session : CheckoutSession) (found : Option ProviderSubscription)
    → Keeps HasFewSelected (link_provider id session found)
unfolding link_provider
link_few id session none = search few_selected
link_few id session (some p) = search few_selected

checkout_few :
    (provider : PaymentProvider) (now : Time) (session : CheckoutSession)
    → Keeps HasFewSelected (handle_checkout_session_completed provider now session)
unfolding handle_checkout_session_completed checked_out Subscriptions.get_provider_subscription
checkout_few provider now session = Keeps-bind _ _ (search few_selected) λ u.
    Keeps-bind _ _ (search few_selected) λ p. Keeps-bind _ _ (search few_selected) λ sub.
      Keeps-bind _ _ (search few_selected) λ target. Keeps-bind _ _ (search few_selected) λ ends.
        Keeps-bind _ _ (search few_selected) λ found.
          Keeps-bind _ _ (link_few sub.row.id session found)
            (λ _. update_full-HasFewSelected _ (period_few target.billing_period _ (omega arith)))

on_plan_few :
    (plan : Option SubscriptionPlan) (row : SubscriptionRow)
    → HasFewAccounts row
    → HasFewAccounts (on_plan plan row)
unfolding on_plan
on_plan_few none row few = few
on_plan_few (some plan) row few = period_few plan.billing_period _ few

on_price_few :
    (price : Option PlanPrice) (row : SubscriptionRow)
    → HasFewAccounts row
    → Ensures HasFewAccounts (on_price price row)
unfolding on_price
on_price_few none row few = Ensures-pure _ few
on_price_few (some price) row few =
    Ensures-bind _ _ (λ plan. Ensures-pure _ (on_plan_few plan row few))

with_price_few :
    (id : String) (b : Bool) (row : SubscriptionRow)
    → HasFewAccounts row
    → Ensures HasFewAccounts (with_price id b row)
unfolding with_price
with_price_few id true row few = Ensures-pure _ few
with_price_few id false row few = Ensures-bind _ _ (λ price. on_price_few price row few)

on_price_same :
    (price : Option PlanPrice) (row : SubscriptionRow) → Keeps HasFewSelected (on_price price row)
unfolding on_price
on_price_same none row = search few_selected
on_price_same (some price) row = search few_selected

with_price_same :
    (id : String) (b : Bool) (row : SubscriptionRow) → Keeps HasFewSelected (with_price id b row)
unfolding with_price Plans.get_by_external_price_id
with_price_same id true row = search few_selected
with_price_same id false row = search (few_selected, on_price_same)

cancel_few :
    (now : Time) (b : Bool) (row : SubscriptionRow)
    → HasFewAccounts row
    → HasFewAccounts (cancel_state now b row)
unfolding cancel_state
cancel_few now true row few = few
cancel_few now false row few = few

status_few :
    (status : Status) (row : SubscriptionRow)
    → HasFewAccounts row
    → HasFewAccounts (status_active status row)
unfolding status_active
status_few Status.active row few = few
status_few Status.past_due row few = few
status_few Status.canceled row few = few
status_few Status.unpaid row few = few
status_few Status.other_status row few = few

update_few :
    (now : Time) (obj : StripeSubscription) (found : Option ProviderSubscription)
    → Keeps HasFewSelected (update_found now obj found)
unfolding update_found synchronized
update_few now obj none = search few_selected
update_few now obj (some p) =
    Keeps-bind_answer _ _ (get_by_id-IsSmall p.subscription_id) (search few_selected) λ sub small.
      Keeps-bind_ensured _ _ (with_price_few _ _ sub.row small) (with_price_same _ _ sub.row)
        λ row few.
          update_full-HasFewSelected _
            (status_few obj.status _ (cancel_few now obj.cancel_at_period_end _ few))

delete_few :
    (now : Time) (found : Option ProviderSubscription)
    → Keeps HasFewSelected (delete_found now found)
unfolding delete_found ended
delete_few now none = search few_selected
delete_few now (some p) = Keeps-bind _ _ (search few_selected) λ sub.
    Keeps-bind _ _ (search few_selected)
      λ free. Keeps-bind _ _ (update_full-HasFewSelected _ (omega arith)) (λ _. search few_selected)

flag_few :
    (failed : Bool) (found : Option ProviderSubscription)
    → Keeps HasFewSelected (flag_found failed found)
unfolding flag_found
flag_few failed none = search few_selected
flag_few failed (some p) = search few_selected

unless_few : (failed b : Bool) (id : String) → Keeps HasFewSelected (flag_unless failed b id)
unfolding flag_unless Subscriptions.get_provider_by_external_id
unless_few failed true id = search few_selected
unless_few failed false id = search (few_selected, flag_few)

pending_few :
    (pending : Option ℕ) (row : SubscriptionRow)
    → HasFewAccounts row
    → Ensures HasFewAccounts (on_pending pending row)
unfolding on_pending
pending_few none row few = Ensures-pure _ few
pending_few (some i) row few =
    Ensures-bind _ _ (λ plan. Ensures-pure _ (period_few plan.billing_period _ few))

pending_same :
    (pending : Option ℕ) (row : SubscriptionRow) → Keeps HasFewSelected (on_pending pending row)
unfolding on_pending
pending_same none row = search few_selected
pending_same (some i) row = search few_selected

complete_few : (found : Option ProviderSubscription) → Keeps HasFewSelected (complete_found found)
unfolding complete_found
complete_few none = search few_selected
complete_few (some p) =
    Keeps-bind_answer _ _ (get_by_id-IsSmall p.subscription_id) (search few_selected) λ sub small.
      Keeps-bind_ensured _ _ (pending_few _ sub.row small) (pending_same _ sub.row)
        λ row few. Keeps-bind _ _ (update_full-HasFewSelected row few) (λ _. search few_selected)

release_few : (found : Option ProviderSubscription) → Keeps HasFewSelected (release_found found)
unfolding release_found
release_few none = search few_selected
release_few (some p) = search few_selected

event_few :
    (provider : PaymentProvider) (now : Time) (event : Event)
    → Keeps HasFewSelected (handle_event provider now event)
unfolding handle_event handle_subscription_updated handle_subscription_deleted handle_invoice
    handle_schedule_completed handle_schedule_released Subscriptions.get_provider_by_external_id
    Subscriptions.get_provider_by_schedule_id
event_few provider now (Event.checkout_session_completed object) =
    search (few_selected, checkout_few)
event_few provider now (Event.subscription_updated object) = search (few_selected, update_few)
event_few provider now (Event.subscription_deleted object) = search (few_selected, delete_few)
event_few provider now (Event.invoice_paid object) = search (few_selected, unless_few)
event_few provider now (Event.invoice_payment_failed object) = search (few_selected, unless_few)
event_few provider now (Event.schedule_completed object) = search (few_selected, complete_few)
event_few provider now (Event.schedule_released object) = search (few_selected, release_few)
event_few provider now Event.other_event = search few_selected

process_few :
    (provider : PaymentProvider) (now : Time) (event : Option Event)
    → Keeps HasFewSelected (process provider now event)
unfolding process
process_few provider now none = search few_selected
process_few provider now (some event) = search (few_selected, event_few)

verified_few :
    (provider : PaymentProvider) (now : Time) (payload : String) (b : Bool)
    → Keeps HasFewSelected (handle_verified provider now payload b)
unfolding handle_verified
verified_few provider now payload true = process_few provider now _
verified_few provider now payload false = search few_selected

pub handle_webhook-few :
    (provider : PaymentProvider) (now : Time) (payload signature : String)
    → Keeps HasFewSelected (handle_webhook provider now payload signature)
unfolding handle_webhook
handle_webhook-few provider now payload signature = verified_few provider now payload _
