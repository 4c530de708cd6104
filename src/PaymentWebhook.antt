-- ===== src/PaymentWebhook.antt =====
-- backend/internal/services/payment/webhook_handler.go. The provider's library verifies signatures
-- and fetches a Stripe subscription, and package json parses: these are a parameter. An object that
-- does not parse is `none`, and so is a number that strconv.Atoi refuses.
pub mod Invoices
pub mod Deletion
pub mod Schedules
use orgfin_diploma.Prelude.{
  ℕ, ◌+◌, ◌*◌, Bool, true, false, Option, none, some, List, [], ◌∷◌, String, same_text,
  if◌then◌else◌,
}
use orgfin_diploma.Models.{
  Time, BillingPeriod, SubscriptionPlan, PlanPrice, SubscriptionRow, Subscription,
  ProviderSubscription,
}
use orgfin_diploma.Exec.{
  Error, Result, ok, err, Exec, pure, lift, optional, try, attempt, when, ◌>>=◌, ◌>>◌,
}
use orgfin_diploma.Repositories.Plans
use orgfin_diploma.Repositories.Subscriptions

pub record CheckoutSession : Type 0 where
  pub customer : String
  pub subscription : String
  pub user_id : Option ℕ
  pub plan_id : Option ℕ

-- The values of a subscription's status that the handler tells apart.
pub data Status : Type 0 where
  active past_due canceled unpaid other_status : Status

-- The price is that of the first item, or the empty text; the end is in seconds.
pub record StripeSubscription : Type 0 where
  pub id : String
  pub status : Status
  pub current_period_end : ℕ
  pub cancel_at_period_end : Bool
  pub price_id : String

-- The type of an event, with its object.
pub data Event : Type 0 where
  checkout_session_completed : Option CheckoutSession → Event
  subscription_updated : Option StripeSubscription → Event
  subscription_deleted : Option String → Event
  invoice_paid invoice_payment_failed : Option String → Event
  schedule_completed schedule_released : Option String → Event
  other_event : Event

pub record PaymentProvider : Type 0 where
  pub verifies : String → String → Bool
  pub parse_event : String → Option Event
  -- CurrentPeriodEnd of GetSubscription
  pub get_subscription : String → Result Time

unfoldable pub parsed : {A : Type 0} → Option A → Result A
parsed none = err Error.invalid_payload
parsed (some a) = ok a

-- The billing period of a plan, if it has one.
unfoldable pub on_period : Option BillingPeriod → SubscriptionRow → SubscriptionRow
on_period none row = row
on_period (some period) row = record row { current_billing_period_id = some period.id }

-- Get or create the row of the provider.
unfoldable pub link_provider : ℕ → CheckoutSession → Option ProviderSubscription → Exec (Unit {0})
link_provider id session (some p) = Subscriptions.update_provider (record p {
  external_customer_id = some session.customer;
  external_subscription_id = some session.subscription;
})
link_provider id session none = Subscriptions.create_provider (record {
  id = 0;
  subscription_id = id;
  external_customer_id = some session.customer;
  external_subscription_id = some session.subscription;
  external_schedule_id = none;
  payment_method_id = none;
  last_payment_failed = false;
})

unfoldable pub checked_out : Time → ℕ → SubscriptionPlan → Time → SubscriptionRow → SubscriptionRow
checked_out now plan_id target ends row = on_period target.billing_period (record row {
  plan_id = plan_id;
  subscribed_at = some now;
  expires_at = some ends;
  is_active = true;
  auto_renew = true;
  trial_started_at = none;
  trial_ends_at = none;
  pending_plan_id = none;
  pending_downgrade_account_ids = [];
  pending_downgrade_budget_id = none;
})

unfoldable pub handle_checkout_session_completed :
    PaymentProvider → Time → CheckoutSession → Exec (Unit {0})
handle_checkout_session_completed provider now session = do
  user_id ← lift (parsed session.user_id)
  plan_id ← lift (parsed session.plan_id)
  sub ← Subscriptions.get_by_user_id user_id
  target ← Plans.get_by_id plan_id
  ends ← lift (provider.get_subscription session.subscription)
  found ← optional (Subscriptions.get_provider_subscription sub.row.id)
  link_provider sub.row.id session found
  Subscriptions.update_full (checked_out now plan_id target ends sub.row)

-- The plan of a price, if both are found.
unfoldable pub on_plan : Option SubscriptionPlan → SubscriptionRow → SubscriptionRow
on_plan none row = row
on_plan (some plan) row = on_period plan.billing_period (record row { plan_id = plan.id })

unfoldable pub on_price : Option PlanPrice → SubscriptionRow → Exec SubscriptionRow
on_price none row = pure row
on_price (some price) row = do plan ← try (Plans.get_by_id price.plan_id); pure (on_plan plan row)

unfoldable pub with_price : String → Bool → SubscriptionRow → Exec SubscriptionRow
with_price price_id true row = pure row
with_price price_id false row = do
  price ← try (Plans.get_by_external_price_id price_id)
  on_price price row

unfoldable pub cancel_state : Time → Bool → SubscriptionRow → SubscriptionRow
cancel_state now true row = record row { canceled_at = some now; auto_renew = false }
cancel_state now false row = record row { canceled_at = none; auto_renew = true }

unfoldable pub status_active : Status → SubscriptionRow → SubscriptionRow
status_active Status.active row = record row { is_active = true }
status_active Status.past_due row = record row { is_active = true }
status_active Status.canceled row = record row { is_active = false }
status_active Status.unpaid row = record row { is_active = false }
status_active Status.other_status row = row

unfoldable pub synchronized : Time → StripeSubscription → SubscriptionRow → SubscriptionRow
synchronized now obj row = status_active obj.status (
    cancel_state now obj.cancel_at_period_end
      (record row { expires_at = some (obj.current_period_end * 1000000) }))

-- handleSubscriptionUpdated and handleSubscriptionDeleted past the lookup of the provider's row.
unfoldable pub update_found :
    Time → StripeSubscription → Option ProviderSubscription → Exec (Unit {0})
update_found now obj none = pure tt
update_found now obj (some p) = do
  sub ← Subscriptions.get_by_id p.subscription_id
  row ← with_price obj.price_id (same_text obj.price_id "") sub.row
  Subscriptions.update_full (synchronized now obj row)

unfoldable pub handle_subscription_updated : Time → StripeSubscription → Exec (Unit {0})
handle_subscription_updated now obj = do
  found ← optional (Subscriptions.get_provider_by_external_id obj.id)
  update_found now obj found

unfoldable pub ended : Time → SubscriptionPlan → SubscriptionRow → SubscriptionRow
ended now free row = record row {
  plan_id = free.id;
  is_active = true;
  auto_renew = false;
  canceled_at = some now;
  expires_at = none;
  current_billing_period_id = none;
  pending_plan_id = none;
  pending_downgrade_account_ids = [];
  pending_downgrade_budget_id = none;
}

unfoldable pub delete_found : Time → Option ProviderSubscription → Exec (Unit {0})
delete_found now none = pure tt
delete_found now (some p) = do
  sub ← Subscriptions.get_by_id p.subscription_id
  free ← Plans.get_free_plan
  Subscriptions.update_full (ended now free sub.row)
  Subscriptions.update_provider
      (record p { external_subscription_id = none; external_schedule_id = none })

unfoldable pub handle_subscription_deleted : Time → String → Exec (Unit {0})
handle_subscription_deleted now id = do
  found ← optional (Subscriptions.get_provider_by_external_id id)
  delete_found now found

unfoldable pub flag_found : Bool → Option ProviderSubscription → Exec (Unit {0})
flag_found failed none = pure tt
flag_found failed (some p) =
    Subscriptions.update_provider (record p { last_payment_failed = failed })

unfoldable pub flag_unless : Bool → Bool → String → Exec (Unit {0})
flag_unless failed true id = pure tt
flag_unless failed false id = do
  found ← optional (Subscriptions.get_provider_by_external_id id)
  flag_found failed found

-- handleInvoicePaid and handleInvoicePaymentFailed, by the flag; an invoice without a subscription
-- is skipped.
unfoldable pub handle_invoice : Bool → String → Exec (Unit {0})
handle_invoice failed id = flag_unless failed (same_text id "") id

-- The plan that was pending takes effect.
unfoldable pub on_pending : Option ℕ → SubscriptionRow → Exec SubscriptionRow
on_pending none row = pure row
on_pending (some id) row = do
  plan ← Plans.get_by_id id
  pure (record (on_period plan.billing_period (record row { plan_id = plan.id })) {
    pending_plan_id = none;
  })

unfoldable pub complete_found : Option ProviderSubscription → Exec (Unit {0})
complete_found none = pure tt
complete_found (some p) = do
  sub ← Subscriptions.get_by_id p.subscription_id
  row ← on_pending sub.row.pending_plan_id sub.row
  Subscriptions.update_full row
  Subscriptions.update_provider (record p { external_schedule_id = none })

unfoldable pub handle_schedule_completed : String → Exec (Unit {0})
handle_schedule_completed id = do
  found ← try (Subscriptions.get_provider_by_schedule_id id)
  complete_found found

unfoldable pub release_found : Option ProviderSubscription → Exec (Unit {0})
release_found none = pure tt
release_found (some p) = Subscriptions.update_provider (record p { external_schedule_id = none })

unfoldable pub handle_schedule_released : String → Exec (Unit {0})
handle_schedule_released id = do
  found ← try (Subscriptions.get_provider_by_schedule_id id)
  release_found found

-- The switch on the type of the event.
unfoldable pub handle_event : PaymentProvider → Time → Event → Exec (Unit {0})
handle_event provider now (Event.checkout_session_completed object) = do
  session ← lift (parsed object)
  handle_checkout_session_completed provider now session
handle_event provider now (Event.subscription_updated object) = do
  obj ← lift (parsed object)
  handle_subscription_updated now obj
handle_event provider now (Event.subscription_deleted object) = do
  id ← lift (parsed object)
  handle_subscription_deleted now id
handle_event provider now (Event.invoice_paid object) = do
  id ← lift (parsed object)
  handle_invoice false id
handle_event provider now (Event.invoice_payment_failed object) = do
  id ← lift (parsed object)
  handle_invoice true id
handle_event provider now (Event.schedule_completed object) = do
  id ← lift (parsed object)
  handle_schedule_completed id
handle_event provider now (Event.schedule_released object) = do
  id ← lift (parsed object)
  handle_schedule_released id
handle_event provider now Event.other_event = pure tt

-- The success of the WebhookResult: an error of a handler is only logged.
unfoldable pub process : PaymentProvider → Time → Option Event → Exec Bool
process provider now none = pure false
process provider now (some event) = do attempt (handle_event provider now event); pure true

unfoldable pub handle_verified : PaymentProvider → Time → String → Bool → Exec Bool
handle_verified provider now payload false = pure false
handle_verified provider now payload true = process provider now (provider.parse_event payload)

unfoldable pub handle_webhook : PaymentProvider → Time → String → String → Exec Bool
handle_webhook provider now payload signature =
    handle_verified provider now payload (provider.verifies payload signature)
