-- ===== src/SubscriptionService/Downgraded.antt =====
-- ProcessExpiredDowngrades of backend/internal/services/subscription/service.go, run without a
-- fault, against what it does to each row.
use orgfin_diploma.Prelude.{
  ℕ, ◌≡◌, refl, sym, ap, ◌∙◌, Bool, true, false, Option, none, some, List, [], map, if◌then◌else◌,
}
use orgfin_diploma.Models.{Time, PlanType, SubscriptionPlan, SubscriptionRow, Subscription, Db}
use orgfin_diploma.Exec.{ok, attempt, when, ◌>>=◌}
use orgfin_diploma.Repositories.Plans
use orgfin_diploma.Repositories.Plans.{find, is_free}
use orgfin_diploma.Repositories.Subscriptions
use orgfin_diploma.Repositories.Subscriptions.{
  change, set_all, is_due, load, with_type, plan_type_of,
}
use orgfin_diploma.Repositories.Subscriptions.Sweep.{HasUniqueIds, change-same}
use orgfin_diploma.SubscriptionService.{Service, apply_downgrade_entity_selection}
use orgfin_diploma.SubscriptionService.Downgrade.{settled_on}
use orgfin_diploma.SubscriptionService.Expiry.{apply_pending, apply_sub, process_expired_downgrades}
use orgfin_diploma.SubscriptionService.Loops.{Stores, found_new, for_each-pass}
use orgfin_diploma.SubscriptionService.Archiving.{ArchivesOnly, selection_body}

-- A row on another plan, with no downgrade pending.
abbrev pub settled_row : SubscriptionPlan → SubscriptionRow → SubscriptionRow
settled_row plan r = record r {
  plan_id = plan.id;
  pending_plan_id = none;
  pending_downgrade_account_ids = [];
  pending_downgrade_budget_id = none;
  is_active = true;
}

-- The row that the body of the loop stores for the pending plan that it found.
stored : Option SubscriptionPlan → SubscriptionRow → SubscriptionRow → SubscriptionRow
stored none x r = r
stored (some plan) x r = set_all (settled_row plan x) r

abbrev pub pending_plan : List SubscriptionPlan → Option ℕ → Option SubscriptionPlan
pending_plan plans none = none
pending_plan plans (some i) = find i plans

abbrev new : List SubscriptionPlan → Subscription → SubscriptionRow → SubscriptionRow
new plans sub = stored (pending_plan plans sub.row.pending_plan_id) sub.row

archived_if :
    (svc : Service) (b : Bool) (u : ℕ) (ids : List ℕ) (kept : Option ℕ) (s : Db)
    → ArchivesOnly svc
    → Stores (when b (attempt (apply_downgrade_entity_selection svc u ids kept))) s s.subscriptions
unfolding when ◌>>=◌
archived_if svc true u ids kept s only = selection_body svc u ids kept s only
archived_if svc false u ids kept s only = record {
  after = s;
  run = refl;
  rows_same = refl;
  plans_same = refl;
}

pending_body :
    (svc : Service) (only : ArchivesOnly svc) (s : Db) (sub : Subscription) (p : ℕ)
    (found : Option SubscriptionPlan)
    → find p s.plans ≡ found
    → Stores
        (apply_pending svc sub (some p))
        s
        (change sub.row.id (stored found sub.row) s.subscriptions)
unfolding apply_pending stored settled_on Plans.get_by_id Subscriptions.update_full ◌>>=◌
pending_body svc only s sub p none h = record {
  after = s;
  run = rw h refl;
  rows_same = sym (change-same sub.row.id s.subscriptions);
  plans_same = refl;
}
pending_body svc only s sub p (some plan) h =
    let t : Db = record s {
      subscriptions = change sub.row.id (set_all (settled_row plan sub.row)) s.subscriptions;
    } in
    let rest =
      archived_if svc (is_free plan.plan_type) sub.row.user_id sub.row.pending_downgrade_account_ids
        sub.row.pending_downgrade_budget_id t only in
    record {
      after = rest.after;
      run = rw h (rw rest.run refl);
      rows_same = rest.rows_same;
      plans_same = rest.plans_same;
    }

apply_body :
    (svc : Service) (only : ArchivesOnly svc) (s : Db) (sub : Subscription) (pending : Option ℕ)
    → Stores
        (apply_pending svc sub pending)
        s
        (change sub.row.id (stored (pending_plan s.plans pending) sub.row) s.subscriptions)
unfolding apply_pending stored ◌>>=◌
apply_body svc only s sub none = record {
  after = s;
  run = refl;
  rows_same = sym (change-same sub.row.id s.subscriptions);
  plans_same = refl;
}
apply_body svc only s sub (some p) = pending_body svc only s sub p (find p s.plans) refl

sub_body :
    (svc : Service) (only : ArchivesOnly svc) (s : Db) (sub : Subscription)
    → Stores (apply_sub svc sub) s (change sub.row.id (new s.plans sub) s.subscriptions)
unfolding apply_sub
sub_body svc only s sub = apply_body svc only s sub sub.row.pending_plan_id

stored_id : (plan : Option SubscriptionPlan) (x r : SubscriptionRow) → (stored plan x r).id ≡ r.id
unfolding stored
stored_id none x r = refl
stored_id (some plan) x r = refl

-- What becomes of a row whose downgrade is due: it is settled on the pending plan, if there is that
-- plan. A row without a plan is not found.
abbrev pub settled : Option PlanType → Option SubscriptionPlan → SubscriptionRow → SubscriptionRow
settled none plan r = r
settled (some k) none r = r
settled (some k) (some plan) r = settled_row plan r

stored-settled :
    (k : PlanType) (plan : Option SubscriptionPlan) (r : SubscriptionRow)
    → stored plan r r ≡ settled (some k) plan r
unfolding stored
stored-settled k none r = refl
stored-settled k (some plan) r = refl

found_settled :
    (s : Db) (k : Option PlanType) (r : SubscriptionRow)
    → found_new new s.plans (with_type s r k) r
      ≡ settled k (pending_plan s.plans r.pending_plan_id) r
unfolding with_type
found_settled s none r = refl
found_settled s (some k) r = stored-settled k (pending_plan s.plans r.pending_plan_id) r

-- What a run makes of a row.
unfoldable pub downgraded_row : Time → Db → SubscriptionRow → SubscriptionRow
downgraded_row now s r =
    if is_due now r
    then settled (plan_type_of r.plan_id s.plans) (pending_plan s.plans r.pending_plan_id) r
    else r

row_downgraded :
    (now : Time) (s : Db) (r : SubscriptionRow)
    → (if is_due now r then found_new new s.plans (load s r) r else r) ≡ downgraded_row now s r
unfolding downgraded_row load
row_downgraded now s r =
    ap (λ x. if is_due now r then x else r) (found_settled s (plan_type_of r.plan_id s.plans) r)

-- Without a fault ProcessExpiredDowngrades succeeds, and makes one pass over the table of
-- subscriptions: a row with a pending plan and no expiry after the clock is settled on that plan, if
-- the plan is not deleted, and every other row stays as it is. The archivers, if they are set, may do
-- anything but write subscriptions and plans.
pub process_expired_downgrades-exact :
    (svc : Service) (now : Time) (s : Db)
    → ArchivesOnly svc
    → HasUniqueIds s.subscriptions
    → let (r, _, s') = process_expired_downgrades svc now [] s in
      (r ≡ ok tt)
      × (s'.subscriptions ≡ map (downgraded_row now s) s.subscriptions)
      × (s'.plans ≡ s.plans)
unfolding process_expired_downgrades Subscriptions.get_pending_downgrades ◌>>=◌
process_expired_downgrades-exact svc now s only unique =
    let pass =
      for_each-pass (apply_sub svc) new (sub_body svc only) (is_due now) s unique
        (λ sub. stored_id (pending_plan s.plans sub.row.pending_plan_id) sub.row) in
    rw pass.run (
      refl,
      pass.rows_same ∙ ap (λ f. map f s.subscriptions) (λ i r. row_downgraded now s r i),
      pass.plans_same,
    )
