-- ===== src/SubscriptionService/Granted.antt =====
-- Upgrade of a user without a subscription, and then GetStatus, of
-- backend/internal/services/subscription/service.go: how long the plan is granted.
use orgfin_diploma.Prelude.{
  ℕ, ◌≡◌, refl, ap, ◌∙◌, Bool, none, some, [], ◌+◌, ◌*◌, eq→==, ltb, if◌then◌else◌,
}
use orgfin_diploma.Models.{Time, PlanType, BillingPeriod, SubscriptionPlan, Subscription, Db}
use orgfin_diploma.Exec.{ok, ◌>>=◌}
use orgfin_diploma.Repositories.Plans.{find, is_free}
use orgfin_diploma.Repositories.Subscriptions
use orgfin_diploma.Repositories.Subscriptions.{
  load_found, load, plan_type_of, find_provider, find_by_user, is_past,
}
use orgfin_diploma.Repositories.Subscriptions.Lookup.{find_by_user-here}
use orgfin_diploma.SubscriptionService.{
  new_row, add_days, effective_type, get_effective_plan_type, plan_limits,
}
use orgfin_diploma.SubscriptionService.Upgrade.{UpgradeResult, upgrade, with_period}
use orgfin_diploma.SubscriptionService.Status.{
  SubscriptionStatus, get_status, status_of, status_if, is_expired_trial, asked, pending_name,
  current_status,
}
use orgfin_diploma.SubscriptionService.Lapsed.{check_run, IsReadOnly-current}
use orgfin_diploma.SubscriptionService.Stored.{
  first_row, first_db, first_subscription, subscribe_run, loaded, period_kept,
}

-- The plan type of a premium subscription at an instant.
abbrev granted : Bool → PlanType
granted over = if over then PlanType.free else PlanType.premium

-- What a status says of the plan.
abbrev pub IsOnPlan : PlanType → SubscriptionStatus → Type 0
IsOnPlan k status = (status.plan_type ≡ k) × (status.limits ≡ plan_limits k)

current_run :
    (t : Time) (sub : Subscription) (s : Db) (k : PlanType)
    → get_effective_plan_type t sub ≡ k
    → sub.row.pending_plan_id ≡ none
    → (status : SubscriptionStatus) × ((current_status t sub [] s).0 ≡ ok status)
      × IsOnPlan k status
unfolding current_status asked pending_name is_free ◌>>=◌
current_run t sub s PlanType.free e alone =
    rw (e, check_run sub.row.user_id s, alone) (_, refl, (refl, refl))
current_run t sub s PlanType.trial e alone = rw (e, alone) (_, refl, (refl, refl))
current_run t sub s PlanType.premium e alone = rw (e, alone) (_, refl, (refl, refl))

-- A premium subscription that has just been taken.
module _ (now later : Time) (u : ℕ) (s : Db) (target : SubscriptionPlan) (period : BillingPeriod)
    (premium : target.plan_type ≡ PlanType.premium)
    (billed : target.billing_period ≡ some period) where
  abbrev over : Bool
  over = ltb (now + period.duration_days * 86400000000) later

  granted_now : get_effective_plan_type later (first_subscription now u s target) ≡ granted over
  unfolding get_effective_plan_type effective_type with_period add_days
  granted_now = rw (premium, billed) refl

  nothing_pending : (first_row now u s target).pending_plan_id ≡ none
  unfolding with_period
  nothing_pending = rw billed refl

  status_run :
      (t : Db)
      → find_by_user u t.subscriptions ≡ some (first_row now u s target)
      → load t (first_row now u s target) ≡ some (first_subscription now u s target)
      → get_status later u [] t ≡ current_status later (first_subscription now u s target) [] t
  unfolding get_status status_of status_if is_expired_trial load_found Subscriptions.get_by_user_id
      ◌>>=◌
  status_run t found known = rw (found, known, premium) refl

-- If a user without a subscription asks for a premium plan with a billing period, both of which are
-- there, then Upgrade succeeds without a fault. GetStatus then succeeds without a fault at any
-- instant: it says that the user is on the premium plan, with its limits, until the days of the
-- period are over, and on the free plan, with its limits, after them. It writes nothing, so that the
-- row stays on the premium plan.
pub upgrade-grants :
    (now later : Time) (u p : ℕ) (s : Db) (target : SubscriptionPlan) (period : BillingPeriod)
    → find_by_user u s.subscriptions ≡ none
    → find p s.plans ≡ some target
    → plan_type_of target.id s.plans ≡ some target.plan_type
    → find_provider s.next_subscription_id s.providers ≡ none
    → target.plan_type ≡ PlanType.premium
    → target.billing_period ≡ some period
    → let (r, _, s1) = upgrade now u p [] s in
      let (r', _, s2) = get_status later u [] s1 in
      let over : Bool = ltb (now + period.duration_days * 86400000000) later in
      ((answer : UpgradeResult) × (r ≡ ok answer))
      × ((status : SubscriptionStatus) × (r' ≡ ok status)
          × IsOnPlan (if over then PlanType.free else PlanType.premium) status)
      × (s2 ≡ s1)
upgrade-grants now later u p s target period absent known typed alone premium billed =
    let row = first_row now u s target in
    let sub = first_subscription now u s target in
    let s1 = first_db now u s target in
    let (own, planned) = period_kept now target.billing_period (new_row u target.id) in
    let found : find_by_user u s1.subscriptions ≡ some row =
      find_by_user-here u row s.subscriptions (eq→== row.user_id u own) in
    let known_kind : load s1 row ≡ some sub =
      loaded s1 row target.plan_type (ap (λ n. plan_type_of n s.plans) planned ∙ typed) alone in
    rw (subscribe_run now u s target p absent known) (
      rw (status_run now later u s target period premium billed s1 found known_kind) (
        (_, refl),
        current_run later sub s1 _ (granted_now now later u s target period premium billed)
            (nothing_pending now later u s target period premium billed),
        (IsReadOnly-current later sub).at [] s1,
      ))
