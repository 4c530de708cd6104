-- ===== src/SubscriptionService/Trial.antt =====
-- CreateTrialSubscription of backend/internal/services/subscription/service.go, and what becomes of
-- the trial.
use orgfin_diploma.Prelude.{
  ℕ, ◌≡◌, refl, ap, ◌∙◌, Bool, true, false, Option, none, some, List, [], ◌∷◌, keep, not, ◌&&◌, ltb,
  ◌+◌, ◌*◌, if◌then◌else◌, All, ◌≢◌, eq→==, Bool-cases, inl, inr, subst,
}
use orgfin_diploma.Models.{Time, PlanType, SubscriptionPlan, SubscriptionRow, Db}
use orgfin_diploma.Exec.{ok, ◌>>=◌}
use orgfin_diploma.Repositories.Plans
use orgfin_diploma.Repositories.Plans.{sort_by_order, find_free}
use orgfin_diploma.Repositories.Subscriptions.{
  find_by_user, is_expired, plan_type_of, has_stripe, find_provider,
}
use orgfin_diploma.Repositories.Subscriptions.Sweep.{HasUniqueIds}
use orgfin_diploma.Repositories.Subscriptions.Lookup.{
  create_run, find_by_user-map, find_by_user-here,
}
use orgfin_diploma.SubscriptionService.{
  Service, find_trial_plan, trial_row, create_trial_subscription, add_days, is_trial,
}
use orgfin_diploma.SubscriptionService.Status.{is_expired_trial}
use orgfin_diploma.SubscriptionService.Expiry.{process_renewals}
use orgfin_diploma.SubscriptionService.Renewed.{renewed_row, renewed, process_renewals-exact}

module _ (svc : Service) (now : Time) (u : ℕ) (s : Db) (plan : SubscriptionPlan) where
  abbrev pub new_trial : SubscriptionRow
  new_trial = record (trial_row svc now u plan) { id = s.next_subscription_id }

  abbrev trial_db : Db
  trial_db = record s {
    subscriptions = new_trial ∷ s.subscriptions;
    next_subscription_id = s.next_subscription_id + 1;
  }

  new_user : new_trial.user_id ≡ u
  unfolding trial_row
  new_user = refl

  create_trial_run :
      find_trial_plan (sort_by_order (keep (λ p. p.is_active && not p.is_deleted) s.plans))
        ≡ ok plan
      → find_by_user u s.subscriptions ≡ none
      → create_trial_subscription svc now u [] s ≡ (ok tt, [], trial_db)
  unfolding create_trial_subscription Plans.get_active_plans ◌>>=◌
  create_trial_run h absent =
      rw
        (
          h,
          create_run (trial_row svc now u plan) s
              (ap (λ n. find_by_user n s.subscriptions) new_user ∙ absent),
        )
        refl

  -- No expiry is set.
  new_unexpired : (later : Time) → is_expired later new_trial ≡ false
  unfolding is_expired trial_row
  new_unexpired later = refl

  new_kept : (later : Time) → renewed_row later trial_db new_trial ≡ new_trial
  unfolding renewed_row
  new_kept later = rw (new_unexpired later) refl

found_trial :
    (ps : List SubscriptionPlan) {plan : SubscriptionPlan}
    → find_trial_plan ps ≡ ok plan
    → plan.plan_type ≡ PlanType.trial
unfolding find_trial_plan
found_trial [] h = cc
found_trial (p ∷ ps) {plan} h = elim (Bool-cases (is_trial p.plan_type)) [
  | inl e ↦ first (rw e at h) (kind p.plan_type e)
  | inr e ↦ found_trial ps {plan = plan} (rw e at h)
]
  where
    first : ok p ≡ ok plan → p.plan_type ≡ PlanType.trial → plan.plan_type ≡ PlanType.trial
    first same k = let eq : p ≡ plan = cc same in subst (λ q. q.plan_type ≡ PlanType.trial) eq k

    kind : (k : PlanType) → is_trial k ≡ true → k ≡ PlanType.trial
    kind PlanType.free e = cc
    kind PlanType.trial e = refl
    kind PlanType.premium e = cc

-- The trial is over once the clock has passed its end.
new_over :
    (svc : Service) (now : Time) (u : ℕ) (s : Db) (plan : SubscriptionPlan) (later : Time)
    → find_trial_plan (sort_by_order (keep (λ p. p.is_active && not p.is_deleted) s.plans))
      ≡ ok plan
    → is_expired_trial later plan.plan_type (new_trial svc now u s plan).trial_ends_at
      ≡ ltb (now + svc.trial_duration_days * 86400000000) later
unfolding is_expired_trial trial_row add_days
new_over svc now u s plan later known = rw (found_trial _ known) refl

renewed_user :
    (now : Time) (s : Db) (r : SubscriptionRow) → (renewed_row now s r).user_id ≡ r.user_id
unfolding renewed_row
renewed_user now s r =
    go (is_expired now r) (find_free s.plans) (plan_type_of r.plan_id s.plans)
      (has_stripe (find_provider r.id s.providers))
  where
    go :
        (b : Bool) (free : Option SubscriptionPlan) (k : Option PlanType) (stripe : Bool)
        → (if b then renewed free k stripe r else r).user_id ≡ r.user_id
    go false free k stripe = refl
    go true free none stripe = refl
    go true free (some PlanType.free) stripe = refl
    go true none (some PlanType.trial) stripe = refl
    go true (some p) (some PlanType.trial) stripe = refl
    go true free (some PlanType.premium) true = refl
    go true free (some PlanType.premium) false = refl

-- CreateTrialSubscription gives a user without a subscription a trial that ends as many days later as are configured,
-- without a fault and if there is an active trial plan. No expiry is set: a run of ProcessRenewals,
-- however late, leaves the new row as it is, though GetStatus takes the trial for an expired one
-- from its end on.
pub create_trial_subscription-lasts :
    (svc : Service) (now later : Time) (u : ℕ) (s : Db) (plan : SubscriptionPlan)
    → find_trial_plan (sort_by_order (keep (λ p. p.is_active && not p.is_deleted) s.plans))
      ≡ ok plan
    → find_by_user u s.subscriptions ≡ none
    → HasUniqueIds s.subscriptions
    → All (λ r. r.id ≢ s.next_subscription_id) s.subscriptions
    → let (r, _, s1) = create_trial_subscription svc now u [] s in
      let (_, _, s2) = process_renewals later [] s1 in
      (r ≡ ok tt)
      × (find_by_user u s2.subscriptions ≡ some (new_trial svc now u s plan))
      × (is_expired_trial later plan.plan_type (new_trial svc now u s plan).trial_ends_at
          ≡ ltb (now + svc.trial_duration_days * 86400000000) later)
create_trial_subscription-lasts svc now later u s plan known absent unique fresh =
    let t = trial_db svc now u s plan in
    let (_, rows) = process_renewals-exact later t (fresh, unique) in
    rw (create_trial_run svc now u s plan known absent) (
      refl,
      ap (find_by_user u) rows
          ∙ find_by_user-map u (renewed_row later t) (renewed_user later t) t.subscriptions (
              find_by_user-here u (new_trial svc now u s plan) s.subscriptions
                (eq→== _ u (new_user svc now u s plan)))
          ∙ ap some (new_kept svc now u s plan later),
      new_over svc now u s plan later known,
    )
