-- ===== src/SubscriptionService/Transitions.antt =====
-- The plan changes that Upgrade of backend/internal/services/subscription/service.go makes.
use orgfin_diploma.Prelude.{ℕ, ◌≡◌, ◌≢◌, refl, some, true, false, [], ◌∷◌, ◌==◌, arith}
use orgfin_diploma.Models.{Time, PlanType, Subscription, SubscriptionPlan, Db}
use orgfin_diploma.Exec.{ok, Faults, ◌>>=◌}
use orgfin_diploma.Exec.Answers.{
  Ensures, Ensures-bind, Ensures-bind_ensured, Ensures-lift, Ensures-pure, Ensures-raise_if,
}
use orgfin_diploma.Repositories.Subscriptions
use orgfin_diploma.Repositories.Subscriptions.{load_found, find_by_user}
use orgfin_diploma.SubscriptionService.{validate_plan_transition, get_effective_plan_type}
use orgfin_diploma.SubscriptionService.Upgrade.{
  UpgradeResult, upgrade, upgrade_from, change_plan, apply_change, moved_to,
}

-- A transition that is allowed leads to premium, from another plan.
validated :
    (current target : PlanType) (u : Unit {0})
    → validate_plan_transition current target ≡ ok u
    → (target ≡ PlanType.premium) × (current ≢ PlanType.premium)
unfolding validate_plan_transition
validated PlanType.free PlanType.free u h = cc
validated PlanType.trial PlanType.trial u h = cc
validated PlanType.premium PlanType.premium u h = cc
validated PlanType.free PlanType.trial u h = cc
validated PlanType.premium PlanType.trial u h = cc
validated PlanType.trial PlanType.free u h = cc
validated PlanType.premium PlanType.free u h = cc
validated PlanType.free PlanType.premium u h = (refl, λ e. cc e)
validated PlanType.trial PlanType.premium u h = (refl, λ e. cc e)

not_same : (a b : ℕ) → (a == b) ≡ false → a ≢ b
not_same a b h e = ground arith

module _ (now : Time) (p : ℕ) (sub : Subscription) where
  abbrev MovesUp : UpgradeResult → Type 0
  MovesUp r =
      (r.subscription.plan_type ≡ PlanType.premium)
      × (get_effective_plan_type now sub ≢ PlanType.premium)
      × (sub.row.plan_id ≢ p)

  apply_change-MovesUp :
      (current target : SubscriptionPlan)
      → (target.plan_type ≡ PlanType.premium) × (get_effective_plan_type now sub ≢ PlanType.premium)
      → sub.row.plan_id ≢ p
      → Ensures MovesUp (apply_change now current target sub)
  unfolding apply_change moved_to
  apply_change-MovesUp current target (up, from) other =
      Ensures-bind _ _ (λ _. Ensures-pure _ (up, from, other))

  pub change_plan-MovesUp : Ensures MovesUp (change_plan now p sub)
  unfolding change_plan
  change_plan-MovesUp = Ensures-bind _ _ λ target. Ensures-bind _ _ λ current.
      Ensures-bind_ensured _ _
        (Ensures-lift _ (validated (get_effective_plan_type now sub) target.plan_type))
        λ _ up.
          Ensures-bind_ensured _ _ (Ensures-raise_if _ _)
            λ _ other. apply_change-MovesUp current target up (not_same sub.row.plan_id p other)

-- Whatever calls of the database fail: if a user has a subscription and Upgrade succeeds, then the
-- new plan is a premium one and not the plan that the user was on, and the effective type of the
-- old plan was not premium.
pub upgrade-moves_up :
    (now : Time) (u p : ℕ) (fs : Faults) (s : Db) (sub : Subscription) (r : UpgradeResult)
    → load_found s (find_by_user u s.subscriptions) ≡ some sub
    → (upgrade now u p fs s).0 ≡ ok r
    → (r.subscription.plan_type ≡ PlanType.premium)
      × (get_effective_plan_type now sub ≢ PlanType.premium)
      × (sub.row.plan_id ≢ p)
unfolding upgrade upgrade_from Subscriptions.get_by_user_id ◌>>=◌
upgrade-moves_up now u p [] s sub r found h =
    (change_plan-MovesUp now p sub).at [] s r (rw found at h)
upgrade-moves_up now u p (false ∷ fs) s sub r found h =
    (change_plan-MovesUp now p sub).at fs s r (rw found at h)
upgrade-moves_up now u p (true ∷ fs) s sub r found h = cc
