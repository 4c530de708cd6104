-- ===== src/SubscriptionService/Applied.antt =====
-- A downgrade that ScheduleDowngrade stores and ProcessExpiredDowngrades applies, both of
-- backend/internal/services/subscription/service.go.
use orgfin_diploma.Prelude.{
  ℕ, ◌≡◌, refl, ap, ◌∙◌, Bool, true, false, Option, none, some, List, [], ◌≤◌, length,
  if◌then◌else◌, ltb, arith,
}
use orgfin_diploma.Models.{Time, PlanType, SubscriptionPlan, SubscriptionRow, Db}
use orgfin_diploma.Exec.{ok, ◌>>=◌}
use orgfin_diploma.Repositories.Plans
use orgfin_diploma.Repositories.Plans.{find, find_free, is_free}
use orgfin_diploma.Repositories.Plans.Free.{HasUniqueIds as HasUniquePlanIds, find_free-found}
use orgfin_diploma.Repositories.Subscriptions
use orgfin_diploma.Repositories.Subscriptions.{
  change, set_all, is_due, is_over, load_found, load, with_type, plan_type_of, has_stripe,
  find_provider, find_by_user,
}
use orgfin_diploma.Repositories.Subscriptions.Sweep.{HasUniqueIds}
use orgfin_diploma.Repositories.Subscriptions.Lookup.{
  find_by_user-map, find_by_user-change, change-HasUniqueIds,
}
use orgfin_diploma.SubscriptionService.{
  Service, plan_limits, effective_type, get_effective_plan_type,
}
use orgfin_diploma.SubscriptionService.Downgrade.{schedule_downgrade, store_downgrade, with_pending}
use orgfin_diploma.SubscriptionService.Expiry.{process_expired_downgrades}
use orgfin_diploma.SubscriptionService.Archiving.{ArchivesOnly}
use orgfin_diploma.SubscriptionService.Downgraded.{
  downgraded_row, settled, settled_row, process_expired_downgrades-exact, pending_plan,
}

-- A user with a paid or trial plan at this time: the row, its plan, and whether Stripe has it.
pub record IsSubscribed (now : Time) (u : ℕ) (s : Db) (row : SubscriptionRow) (k : PlanType)
    (stripe : Bool) : Type 0 where
  pub found : find_by_user u s.subscriptions ≡ some row
  pub typed : plan_type_of row.plan_id s.plans ≡ some k
  pub provided : has_stripe (find_provider row.id s.providers) ≡ stripe
  pub paid : is_free (effective_type now k row.trial_ends_at row.expires_at) ≡ false

-- The row with a downgrade that is pending.
abbrev pub pending_row : SubscriptionPlan → List ℕ → Option ℕ → SubscriptionRow → SubscriptionRow
pending_row free ids kept row = record row {
  pending_plan_id = some free.id;
  pending_downgrade_account_ids = ids;
  pending_downgrade_budget_id = kept;
}

fits : (n : ℕ) → n ≤ 2 → ltb 2 n ≡ false
fits n h = ground arith

module _ (svc : Service) (now : Time) (u : ℕ) (ids : List ℕ) (kept : Option ℕ) (s : Db)
    (row : SubscriptionRow) (k : PlanType) (free : SubscriptionPlan) (few : length ids ≤ 2)
    (free_known : find_free s.plans ≡ some free) where
  abbrev pub scheduled_db : Db
  scheduled_db = record s {
    subscriptions = change row.id (set_all (pending_row free ids kept row)) s.subscriptions;
  }

  pub schedule_run :
      IsSubscribed now u s row k true
      → schedule_downgrade svc now u ids kept [] s
        ≡ (ok (record { scheduled = true; expires_at = row.expires_at }), [], scheduled_db)
  unfolding schedule_downgrade store_downgrade with_pending get_effective_plan_type plan_limits
      load_found load with_type Subscriptions.get_by_user_id Subscriptions.update_full
      Plans.get_free_plan ◌>>=◌
  schedule_run sub =
      rw (sub.found, sub.typed, sub.provided, sub.paid, fits (length ids) few, free_known) refl

downgraded_user :
    (later : Time) (s : Db) (r : SubscriptionRow) → (downgraded_row later s r).user_id ≡ r.user_id
unfolding downgraded_row
downgraded_user later s r =
    go (is_due later r) (plan_type_of r.plan_id s.plans) (pending_plan s.plans r.pending_plan_id)
  where
    go :
        (b : Bool) (k : Option PlanType) (plan : Option SubscriptionPlan)
        → (if b then settled k plan r else r).user_id ≡ r.user_id
    go false k plan = refl
    go true none plan = refl
    go true (some k) none = refl
    go true (some k) (some plan) = refl

-- A row whose downgrade is due, on a plan that is there.
due_settled :
    (later : Time) (s : Db) (r : SubscriptionRow) (k : PlanType) (p : ℕ) (plan : SubscriptionPlan)
    → is_due later r ≡ true
    → plan_type_of r.plan_id s.plans ≡ some k
    → pending_plan s.plans r.pending_plan_id ≡ some plan
    → downgraded_row later s r ≡ settled_row plan r
unfolding downgraded_row
due_settled later s r k p plan due typed known = rw (due, typed, known) refl

pending_due :
    (later : Time) (row : SubscriptionRow) (free : SubscriptionPlan) (ids : List ℕ)
    (kept : Option ℕ)
    → is_over later row.expires_at ≡ true
    → is_due later (pending_row free ids kept row) ≡ true
unfolding is_due
pending_due later row free ids kept h = h

settled_same :
    (plan free : SubscriptionPlan) (r : SubscriptionRow)
    → plan.id ≡ free.id
    → settled_row plan r ≡ settled_row free r
settled_same plan free r h = ap (λ n. record (settled_row free r) { plan_id = n }) h

-- If a user with a Stripe subscription asks for a downgrade and keeps at most two accounts, then
-- the request succeeds without a fault and leaves the plan as it is; the first run of
-- ProcessExpiredDowngrades once the paid period is over (or where none is set) moves the user to the
-- free plan and clears the pending downgrade. The archivers, if they are set, may do anything but
-- write subscriptions and plans.
pub schedule_downgrade-applies :
    (svc : Service) (now later : Time) (u : ℕ) (ids : List ℕ) (kept : Option ℕ) (s : Db)
    (row : SubscriptionRow) (k : PlanType) (free : SubscriptionPlan)
    → ArchivesOnly svc
    → HasUniqueIds s.subscriptions
    → HasUniquePlanIds s.plans
    → length ids ≤ 2
    → find_free s.plans ≡ some free
    → IsSubscribed now u s row k true
    → is_over later row.expires_at ≡ true
    → let (r, _, s1) = schedule_downgrade svc now u ids kept [] s in
      let (r', _, s2) = process_expired_downgrades svc later [] s1 in
      (r ≡ ok (record { scheduled = true; expires_at = row.expires_at }))
      × (find_by_user u s1.subscriptions ≡ some (pending_row free ids kept row))
      × (r' ≡ ok tt)
      × (find_by_user u s2.subscriptions ≡ some (settled_row free row))
schedule_downgrade-applies svc now later u ids kept s row k free only unique plan_ids few known sub
      over =
    let (plan, again) = find_free-found s.plans free plan_ids known in
    let t = scheduled_db svc now u ids kept s row k free few known in
    let stored : find_by_user u t.subscriptions ≡ some (pending_row free ids kept row) =
      find_by_user-change u (set_all (pending_row free ids kept row)) (λ r. refl) row.id
        s.subscriptions sub.found refl in
    let (done, rows, _) = process_expired_downgrades-exact svc later t only (
      change-HasUniqueIds row.id (set_all (pending_row free ids kept row)) (λ r. refl)
        s.subscriptions unique) in
    rw (schedule_run svc now u ids kept s row k free few known sub) (
      refl,
      stored,
      done,
      ap (find_by_user u) rows
          ∙ find_by_user-map u (downgraded_row later t) (downgraded_user later t) t.subscriptions
              stored
          ∙ ap some (
              due_settled later t (pending_row free ids kept row) k free.id plan
                (pending_due later row free ids kept over) sub.typed again.found)
          ∙ ap some (settled_same plan free row again.id_same),
    )
