-- ===== src/Repositories/Subscriptions.antt =====
-- backend/internal/repositories/subscription.go: subscriptions and the rows of their payment
-- provider. An empty list of accounts is stored as NULL and read back as empty. The schema allows a
-- user one subscription, and a subscription one provider's row.
pub mod Sweep
pub mod Lookup
pub mod Providers
use orgfin_diploma.Prelude.{
  ℕ, ◌+◌, Bool, true, false, ◌&&◌, Option, none, some, List, [], ◌∷◌, String, ltb, leb, ◌==◌,
  same_text, if◌then◌else◌, keep, find_first,
}
use orgfin_diploma.Models.{
  Time, PlanType, SubscriptionPlan, SubscriptionRow, Subscription, ProviderSubscription, Db,
}
use orgfin_diploma.Exec.{Exec, ok, query, returning, statement, row_of, inserting}

-- JOIN subscription_plans sp ON s.plan_id = sp.id
unfoldable pub plan_type_of : ℕ → List SubscriptionPlan → Option PlanType
plan_type_of i [] = none
plan_type_of i (p ∷ ps) = if p.id == i then some p.plan_type else plan_type_of i ps

-- WHERE subscription_id = i
unfoldable pub find_provider : ℕ → List ProviderSubscription → Option ProviderSubscription
find_provider i = find_first (λ p. p.subscription_id == i)

abbrev is_given : Option String → Bool
is_given none = false
is_given (some x) = true

-- CASE WHEN pps.external_subscription_id IS NOT NULL THEN true ELSE false END
unfoldable pub has_stripe : Option ProviderSubscription → Bool
has_stripe none = false
has_stripe (some p) = is_given p.external_subscription_id

unfoldable pub with_type : Db → SubscriptionRow → Option PlanType → Option Subscription
with_type s r none = none
with_type s r (some k) = some (record {
  row = r;
  plan_type = k;
  has_stripe_subscription = has_stripe (find_provider r.id s.providers);
})

-- The inner join with the plans and the outer join with the providers.
unfoldable pub load : Db → SubscriptionRow → Option Subscription
load s r = with_type s r (plan_type_of r.plan_id s.plans)

abbrev pub cons_if : {A : Type 0} → Option A → List A → List A
cons_if none xs = xs
cons_if (some x) xs = x ∷ xs

unfoldable pub load_all : Db → List SubscriptionRow → List Subscription
load_all s [] = []
load_all s (r ∷ rs) = cons_if (load s r) (load_all s rs)

unfoldable pub find : ℕ → List SubscriptionRow → Option SubscriptionRow
find i = find_first (λ r. r.id == i)

unfoldable pub find_by_user : ℕ → List SubscriptionRow → Option SubscriptionRow
find_by_user u = find_first (λ r. r.user_id == u)

unfoldable pub load_found : Db → Option SubscriptionRow → Option Subscription
load_found s none = none
load_found s (some r) = load s r

unfoldable pub get_by_id : ℕ → Exec Subscription
get_by_id i = query (λ s. row_of (load_found s (find i s.subscriptions)))

unfoldable pub get_by_user_id : ℕ → Exec Subscription
get_by_user_id u = query (λ s. row_of (load_found s (find_by_user u s.subscriptions)))

-- The new row, unless the user has a subscription: the table has one row for a user at most.
unfoldable pub add_row :
    SubscriptionRow → Db → Option SubscriptionRow → Option (SubscriptionRow × Db)
add_row r s (some other) = none
add_row r s none =
    let r' = record r { id = s.next_subscription_id } in
    some (
      r',
      record s {
        subscriptions = r' ∷ s.subscriptions;
        next_subscription_id = s.next_subscription_id + 1;
      },
    )

-- INSERT … RETURNING id
unfoldable pub create : SubscriptionRow → Exec SubscriptionRow
create r = inserting (λ s. add_row r s (find_by_user r.user_id s.subscriptions))

-- UPDATE subscriptions SET … WHERE id = i
unfoldable pub change :
    ℕ → (SubscriptionRow → SubscriptionRow) → List SubscriptionRow → List SubscriptionRow
change i f [] = []
change i f (r ∷ rs) = (if r.id == i then f r else r) ∷ change i f rs

-- The columns that Update writes.
abbrev pub set_some : SubscriptionRow → SubscriptionRow → SubscriptionRow
set_some b r = record r {
  plan_id = b.plan_id;
  subscribed_at = b.subscribed_at;
  expires_at = b.expires_at;
  is_active = b.is_active;
  pending_plan_id = b.pending_plan_id;
}

unfoldable pub update : SubscriptionRow → Exec (Unit {0})
update b = statement (λ s. record s { subscriptions = change b.id (set_some b) s.subscriptions })

-- The columns that UpdateSubscriptionFull writes.
abbrev pub set_all : SubscriptionRow → SubscriptionRow → SubscriptionRow
set_all b r = record r {
  plan_id = b.plan_id;
  current_billing_period_id = b.current_billing_period_id;
  trial_started_at = b.trial_started_at;
  trial_ends_at = b.trial_ends_at;
  subscribed_at = b.subscribed_at;
  expires_at = b.expires_at;
  auto_renew = b.auto_renew;
  canceled_at = b.canceled_at;
  is_active = b.is_active;
  pending_plan_id = b.pending_plan_id;
  pending_downgrade_account_ids = b.pending_downgrade_account_ids;
  pending_downgrade_budget_id = b.pending_downgrade_budget_id;
}

unfoldable pub update_full : SubscriptionRow → Exec (Unit {0})
update_full b =
    statement (λ s. record s { subscriptions = change b.id (set_all b) s.subscriptions })

-- A column of time that is not NULL and before the clock.
abbrev pub is_past : Time → Option Time → Bool
is_past now none = false
is_past now (some t) = ltb t now

-- WHERE s.is_active = true AND s.expires_at IS NOT NULL AND s.expires_at < NOW()
unfoldable pub is_expired : Time → SubscriptionRow → Bool
is_expired now r = r.is_active && is_past now r.expires_at

unfoldable pub get_expired_subscriptions : Time → Exec (List Subscription)
get_expired_subscriptions now = query (λ s. ok (load_all s (keep (is_expired now) s.subscriptions)))

abbrev pub is_over : Time → Option Time → Bool
is_over now none = true
is_over now (some t) = leb t now

abbrev pub is_pending : Option ℕ → Bool
is_pending none = false
is_pending (some i) = true

-- WHERE s.pending_plan_id IS NOT NULL AND (s.expires_at IS NULL OR s.expires_at <= NOW())
unfoldable pub is_due : Time → SubscriptionRow → Bool
is_due now r = is_pending r.pending_plan_id && is_over now r.expires_at

unfoldable pub get_pending_downgrades : Time → Exec (List Subscription)
get_pending_downgrades now = query (λ s. ok (load_all s (keep (is_due now) s.subscriptions)))

unfoldable pub get_provider_subscription : ℕ → Exec ProviderSubscription
get_provider_subscription i = query (λ s. row_of (find_provider i s.providers))

-- A column of text that equals x; NULL equals nothing.
abbrev pub is_text : String → Option String → Bool
is_text x none = false
is_text x (some y) = same_text y x

unfoldable pub find_external : String → List ProviderSubscription → Option ProviderSubscription
find_external x = find_first (λ p. is_text x p.external_subscription_id)

unfoldable pub get_provider_by_external_id : String → Exec ProviderSubscription
get_provider_by_external_id x = query (λ s. row_of (find_external x s.providers))

unfoldable pub find_schedule : String → List ProviderSubscription → Option ProviderSubscription
find_schedule x = find_first (λ p. is_text x p.external_schedule_id)

unfoldable pub get_provider_by_schedule_id : String → Exec ProviderSubscription
get_provider_by_schedule_id x = query (λ s. row_of (find_schedule x s.providers))

unfoldable pub create_provider : ProviderSubscription → Exec (Unit {0})
create_provider p = statement λ s. record s {
  providers = record p { id = s.next_provider_id } ∷ s.providers;
  next_provider_id = s.next_provider_id + 1;
}

-- The columns that UpdateProviderSubscription writes.
abbrev pub set_provider : ProviderSubscription → ProviderSubscription → ProviderSubscription
set_provider b p = record p {
  external_customer_id = b.external_customer_id;
  external_subscription_id = b.external_subscription_id;
  external_schedule_id = b.external_schedule_id;
  payment_method_id = b.payment_method_id;
  last_payment_failed = b.last_payment_failed;
}

unfoldable pub change_provider :
    ProviderSubscription → List ProviderSubscription → List ProviderSubscription
change_provider b [] = []
change_provider b (p ∷ ps) = (if p.id == b.id then set_provider b p else p) ∷ change_provider b ps

unfoldable pub update_provider : ProviderSubscription → Exec (Unit {0})
update_provider b = statement (λ s. record s { providers = change_provider b s.providers })
