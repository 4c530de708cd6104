-- ===== src/Repositories/Plans.antt =====
-- The plans of backend/internal/repositories/subscription.go, and plan_price.go. A plan carries the
-- columns of its billing period; the currency that the queries join is always there.
pub mod Free
use orgfin_diploma.Prelude.{
  ℕ, ℤ, ltb_ℤ, Bool, true, false, not, ◌&&◌, Option, none, some, List, [], ◌∷◌, String, ◌==◌,
  same_text, if◌then◌else◌, keep,
}
use orgfin_diploma.Models.{PlanType, SubscriptionPlan, PlanPrice}
use orgfin_diploma.Exec.{Exec, ok, query, row_of}

-- WHERE sp.id = i AND sp.is_deleted = false
unfoldable pub find : ℕ → List SubscriptionPlan → Option SubscriptionPlan
find i [] = none
find i (p ∷ ps) = if p.id == i && not p.is_deleted then some p else find i ps

unfoldable pub get_by_id : ℕ → Exec SubscriptionPlan
get_by_id i = query (λ s. row_of (find i s.plans))

unfoldable pub is_free : PlanType → Bool
is_free PlanType.free = true
is_free PlanType.trial = false
is_free PlanType.premium = false

-- GetFreePlan does not select the billing period.
unfoldable pub find_free : List SubscriptionPlan → Option SubscriptionPlan
find_free [] = none
find_free (p ∷ ps) =
    if is_free p.plan_type && (p.is_active && not p.is_deleted)
    then some (record p { billing_period = none })
    else find_free ps

unfoldable pub get_free_plan : Exec SubscriptionPlan
get_free_plan = query (λ s. row_of (find_free s.plans))

-- ORDER BY sp.sort_order; plans of one order stay in the order of the table.
unfoldable pub insert_by_order : SubscriptionPlan → List SubscriptionPlan → List SubscriptionPlan
insert_by_order p [] = p ∷ []
insert_by_order p (q ∷ qs) =
    if ltb_ℤ q.sort_order p.sort_order then q ∷ insert_by_order p qs else p ∷ q ∷ qs

unfoldable pub sort_by_order : List SubscriptionPlan → List SubscriptionPlan
sort_by_order [] = []
sort_by_order (p ∷ ps) = insert_by_order p (sort_by_order ps)

unfoldable pub get_active_plans : Exec (List SubscriptionPlan)
get_active_plans =
    query (λ s. ok (sort_by_order (keep (λ p. p.is_active && not p.is_deleted) s.plans)))

-- WHERE external_price_id = x
unfoldable pub find_price : String → List PlanPrice → Option PlanPrice
find_price x [] = none
find_price x (p ∷ ps) = if same_text p.external_price_id x then some p else find_price x ps

unfoldable pub get_by_external_price_id : String → Exec PlanPrice
get_by_external_price_id x = query (λ s. row_of (find_price x s.plan_prices))
