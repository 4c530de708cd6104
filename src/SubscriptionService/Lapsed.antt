-- ===== src/SubscriptionService/Lapsed.antt =====
-- GetStatus of backend/internal/services/subscription/service.go for a trial that is over.
use orgfin_diploma.Prelude.{
  ℕ, ◌≡◌, refl, ap, ◌∙◌, Bool, true, false, Option, none, some, [], keep, length, not, ◌&&◌, ◌||◌,
  ◌==◌, ltb,
}
use orgfin_diploma.Models.{Time, PlanType, SubscriptionPlan, SubscriptionRow, Subscription, Db}
use orgfin_diploma.Exec.{ok, ◌>>=◌}
use orgfin_diploma.Exec.Rules.{IsReadOnly, IsReadOnly-bind, IsReadOnly-try, read_only}
use orgfin_diploma.SubscriptionService.Reads.{plan_reads}
use orgfin_diploma.Repositories.Plans
use orgfin_diploma.Repositories.Plans.{find, find_free, is_free}
use orgfin_diploma.Repositories.Plans.Free.{HasUniqueIds as HasUniquePlanIds, find_free-found}
use orgfin_diploma.Repositories.Counts
use orgfin_diploma.Repositories.Subscriptions
use orgfin_diploma.Repositories.Subscriptions.{
  change, set_some, load_found, load, with_type, plan_type_of, has_stripe, find_provider,
  find_by_user, is_past,
}
use orgfin_diploma.Repositories.Subscriptions.Lookup.{find_by_user-change, plan_type_of-find}
use orgfin_diploma.SubscriptionService.{plan_limits}
use orgfin_diploma.SubscriptionService.Status.{
  SubscriptionStatus, get_status, status_of, status_if, is_expired_trial, downgrade_to_free,
  on_free_plan, build_free_status, check_requires_downgrade, check_limits, exceeds_limits,
  default_free_status, current_status, asked, pending_name,
}

-- The user has more accounts or budgets than the free plan allows.
abbrev pub exceeds_free : ℕ → Db → Bool
exceeds_free u s =
    ltb 2
      (length (keep (λ a. a.user_id == u && (not a.is_deleted && not a.is_archived)) s.accounts))
    || ltb 1
        (length (keep (λ b. b.user_id == u && (not b.is_deleted && not b.is_archived)) s.budgets))

budgets_run :
    (u : ℕ) (s : Db) (b : Bool)
    → exceeds_limits (record { accounts = 2; budgets = 1; planning_days = 14 }) u b [] s ≡ (
      ok (
          b
          || ltb 1 (
              length
                (keep (λ b. b.user_id == u && (not b.is_deleted && not b.is_archived)) s.budgets))),
      [],
      s,
    )
unfolding exceeds_limits Counts.count_budgets ◌>>=◌
budgets_run u s true = refl
budgets_run u s false = refl

pub check_run : (u : ℕ) (s : Db) → check_requires_downgrade u [] s ≡ (ok (exceeds_free u s), [], s)
unfolding check_requires_downgrade check_limits plan_limits Counts.count_accounts ◌>>=◌
check_run u s = budgets_run u s _

-- The row on the free plan.
abbrev pub lapsed_row : SubscriptionPlan → SubscriptionRow → SubscriptionRow
lapsed_row free r = record r { plan_id = free.id; is_active = true }

module _ (now : Time) (u : ℕ) (s : Db) (row : SubscriptionRow) (free : SubscriptionPlan) where
  abbrev pub lapsed_db : Db
  lapsed_db = record s {
    subscriptions = change row.id (set_some (lapsed_row free row)) s.subscriptions;
  }

  abbrev pub free_status : SubscriptionStatus
  free_status = record {
    plan_type = PlanType.free;
    is_active = true;
    plan_id = free.id;
    requires_downgrade = exceeds_free row.user_id s;
    limits = plan_limits PlanType.free;
    trial_days_remaining = none;
    subscribed_at = row.subscribed_at;
    expires_at = none;
    pending_plan_id = none;
    pending_plan_name = none;
    has_stripe_subscription = has_stripe (find_provider row.id s.providers);
  }

  lapse_run :
      find_by_user u s.subscriptions ≡ some row
      → plan_type_of row.plan_id s.plans ≡ some PlanType.trial
      → is_past now row.trial_ends_at ≡ true
      → find_free s.plans ≡ some free
      → get_status now u [] s ≡ (ok free_status, [], lapsed_db)
  unfolding get_status status_of status_if is_expired_trial downgrade_to_free on_free_plan
      build_free_status load_found load with_type default_free_status Subscriptions.get_by_user_id
      Subscriptions.update Plans.get_free_plan ◌>>=◌
  lapse_run found typed past known =
      rw (found, typed, past, known, check_run row.user_id lapsed_db) refl

IsReadOnly-exceeds :
    (u : ℕ) (b : Bool)
    → IsReadOnly (exceeds_limits (record { accounts = 2; budgets = 1; planning_days = 14 }) u b)
unfolding exceeds_limits Counts.count_budgets
IsReadOnly-exceeds u true = search read_only
IsReadOnly-exceeds u false = search read_only

pub IsReadOnly-check : (u : ℕ) → IsReadOnly (check_requires_downgrade u)
unfolding check_requires_downgrade check_limits plan_limits Counts.count_accounts
IsReadOnly-check u = IsReadOnly-bind _ _ (search read_only) (λ n. IsReadOnly-exceeds u (ltb 2 n))

IsReadOnly-asked : (b : Bool) (u : ℕ) → IsReadOnly (asked b u)
unfolding asked
IsReadOnly-asked true u = IsReadOnly-try _ (IsReadOnly-check u)
IsReadOnly-asked false u = search read_only

IsReadOnly-name : (p : Option ℕ) → IsReadOnly (pending_name p)
unfolding pending_name
IsReadOnly-name none = search read_only
IsReadOnly-name (some p) = search plan_reads

pub IsReadOnly-current : (now : Time) (sub : Subscription) → IsReadOnly (current_status now sub)
unfolding current_status
IsReadOnly-current now sub = IsReadOnly-bind _ _ (IsReadOnly-asked _ _) (λ answer.
    IsReadOnly-bind _ _ (IsReadOnly-name sub.row.pending_plan_id) (λ name. search read_only))

-- A user on the free plan is only read.
free_reads :
    (now : Time) (u : ℕ) (s : Db) (row : SubscriptionRow)
    → find_by_user u s.subscriptions ≡ some row
    → plan_type_of row.plan_id s.plans ≡ some PlanType.free
    → (get_status now u [] s).2 ≡ s
unfolding get_status status_of status_if is_expired_trial load_found load with_type
    Subscriptions.get_by_user_id ◌>>=◌
free_reads now u s row found typed = rw (found, typed) ((IsReadOnly-current now _).at [] s)

-- If the trial of a user is past its end and there is a free plan, then GetStatus succeeds without a
-- fault: it moves the user to the free plan, answers the status of that plan with its limits, and
-- says whether the user exceeds them. Asked again, at any time, it writes nothing more.
pub get_status-lapses :
    (now later : Time) (u : ℕ) (s : Db) (row : SubscriptionRow) (free : SubscriptionPlan)
    → HasUniquePlanIds s.plans
    → find_by_user u s.subscriptions ≡ some row
    → plan_type_of row.plan_id s.plans ≡ some PlanType.trial
    → is_past now row.trial_ends_at ≡ true
    → find_free s.plans ≡ some free
    → let (r, _, s1) = get_status now u [] s in
      let (_, _, s2) = get_status later u [] s1 in
      (r ≡ ok (free_status now u s row free))
      × (find_by_user u s1.subscriptions ≡ some (lapsed_row free row))
      × (s2 ≡ s1)
get_status-lapses now later u s row free unique found typed past known =
    let (plan, again) = find_free-found s.plans free unique known in
    let stored : find_by_user u (lapsed_db now u s row free).subscriptions
        ≡ some (lapsed_row free row) =
      find_by_user-change u (set_some (lapsed_row free row)) (λ r. refl) row.id s.subscriptions
        found refl in
    let kind : plan_type_of free.id s.plans ≡ some PlanType.free =
      plan_type_of-find free.id s.plans unique again.found ∙ ap some again.type_same in
    rw (lapse_run now u s row free found typed past known) (
      refl,
      stored,
      free_reads later u (lapsed_db now u s row free) (lapsed_row free row) stored kind,
    )
