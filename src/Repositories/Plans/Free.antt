-- ===== src/Repositories/Plans/Free.antt =====
-- The free plan is found again under its id.
use orgfin_diploma.Prelude.{
  ℕ, ◌≡◌, ◌≢◌, refl, none, some, List, [], ◌∷◌, All, Bool-cases, inl, inr, ◌&&◌, not, arith, Bool,
  true, false, sym, eq→==, ne→==,
}
use orgfin_diploma.Models.{PlanType, SubscriptionPlan}
use orgfin_diploma.Repositories.Plans.{find, find_free, is_free}

-- The primary key: no id occurs twice.
abbrev pub HasUniqueIds : List SubscriptionPlan → Type 0
HasUniqueIds [] = Unit
HasUniqueIds (p ∷ ps) = All (λ x. x.id ≢ p.id) ps × HasUniqueIds ps

-- The plan that GetFreePlan answers, with its billing period.
pub record IsFoundFree (ps : List SubscriptionPlan) (free plan : SubscriptionPlan) : Type 0 where
  pub found : find free.id ps ≡ some plan
  pub id_same : plan.id ≡ free.id
  pub type_same : plan.plan_type ≡ PlanType.free

is_free_type : (k : PlanType) → is_free k ≡ true → k ≡ PlanType.free
unfolding is_free
is_free_type PlanType.free h = refl
is_free_type PlanType.trial h = cc
is_free_type PlanType.premium h = cc

free_elsewhere :
    (n : ℕ) (ps : List SubscriptionPlan) (free : SubscriptionPlan)
    → All (λ x. x.id ≢ n) ps
    → find_free ps ≡ some free
    → free.id ≢ n
unfolding find_free
free_elsewhere n [] free h e = cc
free_elsewhere n (p ∷ ps) free h e =
    elim (Bool-cases (is_free p.plan_type && (p.is_active && not p.is_deleted))) [
      | inl here ↦ λ same. h.0 (cc (rw here at e, same))
      | inr later ↦ free_elsewhere n ps free h.1 (rw later at e)
    ]

live_free : (a b c : Bool) → (a && (b && not c)) ≡ true → (a ≡ true) × (c ≡ false)
live_free a b c h = ground arith

pub find_free-found :
    (ps : List SubscriptionPlan) (free : SubscriptionPlan)
    → HasUniqueIds ps
    → find_free ps ≡ some free
    → (plan : SubscriptionPlan) × IsFoundFree ps free plan
unfolding find_free find
find_free-found [] free h e = cc
find_free-found (p ∷ ps) free h e =
    elim (Bool-cases (is_free p.plan_type && (p.is_active && not p.is_deleted))) [
      | inl here ↦ (p, first here (rw here at e))
      | inr later ↦
          behind (find_free-found ps free h.1 (rw later at e))
            (free_elsewhere p.id ps free h.0 (rw later at e))
    ]
  where
    first :
        (is_free p.plan_type && (p.is_active && not p.is_deleted)) ≡ true
        → some (record p { billing_period = none }) ≡ some free
        → IsFoundFree (p ∷ ps) free p
    first here e =
        let same : p.id ≡ free.id = cc e in
        let (kind, live) = live_free (is_free p.plan_type) p.is_active p.is_deleted here in
        record {
          found = rw (eq→== p.id free.id same, live) refl;
          id_same = same;
          type_same = is_free_type p.plan_type kind;
        }

    behind :
        ((plan : SubscriptionPlan) × IsFoundFree ps free plan)
        → free.id ≢ p.id
        → (plan : SubscriptionPlan) × IsFoundFree (p ∷ ps) free plan
    behind (plan, k) ne = (
      plan,
      record {
        found = rw (ne→== p.id free.id (λ q. ne (sym q))) k.found;
        id_same = k.id_same;
        type_same = k.type_same;
      },
    )
