-- ===== src/SubscriptionService/Renewed.antt =====
-- ProcessRenewals of backend/internal/services/subscription/service.go, run without a fault, against
-- what it does to each row.
use orgfin_diploma.Prelude.{
  ◌≡◌, refl, ap, ◌∙◌, Bool, true, false, Option, none, some, List, [], map, if◌then◌else◌, sym,
}
use orgfin_diploma.Models.{Time, PlanType, SubscriptionPlan, SubscriptionRow, Subscription, Db}
use orgfin_diploma.Exec.{ok, ◌>>=◌}
use orgfin_diploma.Repositories.Plans
use orgfin_diploma.Repositories.Plans.{find_free}
use orgfin_diploma.Repositories.Subscriptions
use orgfin_diploma.Repositories.Subscriptions.{
  change, set_some, is_expired, load, with_type, plan_type_of, has_stripe, find_provider,
}
use orgfin_diploma.Repositories.Subscriptions.Sweep.{HasUniqueIds, change-same}
use orgfin_diploma.SubscriptionService.Expiry.{
  renew, renew_sub, ended_trial, deactivated, process_renewals,
}
use orgfin_diploma.SubscriptionService.Loops.{Stores, found_new, for_each-pass}

-- The row that the body of the loop stores for what the query found of it.
stored :
    Option SubscriptionPlan → PlanType → Bool → SubscriptionRow → SubscriptionRow → SubscriptionRow
stored free PlanType.free stripe x r = r
stored none PlanType.trial stripe x r = r
stored (some free) PlanType.trial stripe x r = set_some (ended_trial free x) r
stored free PlanType.premium true x r = r
stored free PlanType.premium false x r = set_some (deactivated x) r

-- A body that writes nothing.
Stores-nothing :
    (s : Db) (x : SubscriptionRow)
    → Stores (λ fs t. (ok tt, fs, t)) s (change x.id (λ r. r) s.subscriptions)
Stores-nothing s x = record {
  after = s;
  run = refl;
  rows_same = sym (change-same x.id s.subscriptions);
  plans_same = refl;
}

trial_body :
    (s : Db) (x : SubscriptionRow) (stripe : Bool) (free : Option SubscriptionPlan)
    → find_free s.plans ≡ free
    → Stores
        (renew x PlanType.trial stripe)
        s
        (change x.id (stored free PlanType.trial stripe x) s.subscriptions)
unfolding renew stored Plans.get_free_plan Subscriptions.update ◌>>=◌
trial_body s x stripe none h = record {
  after = s;
  run = rw h refl;
  rows_same = sym (change-same x.id s.subscriptions);
  plans_same = refl;
}
trial_body s x stripe (some free) h = record {
  after = record s { subscriptions = change x.id (set_some (ended_trial free x)) s.subscriptions };
  run = rw h refl;
  rows_same = refl;
  plans_same = refl;
}

renew_body :
    (s : Db) (x : SubscriptionRow) (k : PlanType) (stripe : Bool)
    → Stores
        (renew x k stripe)
        s
        (change x.id (stored (find_free s.plans) k stripe x) s.subscriptions)
unfolding renew stored Subscriptions.update ◌>>=◌
renew_body s x PlanType.free stripe = Stores-nothing s x
renew_body s x PlanType.trial stripe = trial_body s x stripe (find_free s.plans) refl
renew_body s x PlanType.premium true = Stores-nothing s x
renew_body s x PlanType.premium false = record {
  after = record s { subscriptions = change x.id (set_some (deactivated x)) s.subscriptions };
  run = refl;
  rows_same = refl;
  plans_same = refl;
}

-- What becomes of an expired row: a trial goes to the free plan, if there is one, and a premium
-- subscription without Stripe is switched off. A row without a plan is not found.
abbrev pub renewed :
    Option SubscriptionPlan → Option PlanType → Bool → SubscriptionRow → SubscriptionRow
renewed free none stripe r = r
renewed free (some PlanType.free) stripe r = r
renewed none (some PlanType.trial) stripe r = r
renewed (some free) (some PlanType.trial) stripe r = record r {
  plan_id = free.id;
  is_active = true;
}
renewed free (some PlanType.premium) true r = r
renewed free (some PlanType.premium) false r = record r { is_active = false }

stored_id :
    (free : Option SubscriptionPlan) (k : PlanType) (stripe : Bool) (x r : SubscriptionRow)
    → (stored free k stripe x r).id ≡ r.id
unfolding stored
stored_id free PlanType.free stripe x r = refl
stored_id none PlanType.trial stripe x r = refl
stored_id (some free) PlanType.trial stripe x r = refl
stored_id free PlanType.premium true x r = refl
stored_id free PlanType.premium false x r = refl

abbrev new : List SubscriptionPlan → Subscription → SubscriptionRow → SubscriptionRow
new plans sub = stored (find_free plans) sub.plan_type sub.has_stripe_subscription sub.row

sub_body :
    (s : Db) (sub : Subscription)
    → Stores (renew_sub sub) s (change sub.row.id (new s.plans sub) s.subscriptions)
unfolding renew_sub
sub_body s sub = renew_body s sub.row sub.plan_type sub.has_stripe_subscription

premium_renewed :
    (free free' : Option SubscriptionPlan) (stripe : Bool) (r : SubscriptionRow)
    → stored free PlanType.premium stripe r r ≡ renewed free' (some PlanType.premium) stripe r
unfolding stored
premium_renewed free free' true r = refl
premium_renewed free free' false r = refl

found_renewed :
    (s : Db) (free : Option SubscriptionPlan) (k : Option PlanType) (r : SubscriptionRow)
    → find_free s.plans ≡ free
    → found_new new s.plans (with_type s r k) r
      ≡ renewed free k (has_stripe (find_provider r.id s.providers)) r
unfolding with_type stored
found_renewed s free none r h = refl
found_renewed s free (some PlanType.free) r h = refl
found_renewed s none (some PlanType.trial) r h = rw h refl
found_renewed s (some free) (some PlanType.trial) r h = rw h refl
found_renewed s free (some PlanType.premium) r h =
    premium_renewed (find_free s.plans) free (has_stripe (find_provider r.id s.providers)) r

-- What a run makes of a row.
unfoldable pub renewed_row : Time → Db → SubscriptionRow → SubscriptionRow
renewed_row now s r =
    if is_expired now r
    then renewed (find_free s.plans) (plan_type_of r.plan_id s.plans)
        (has_stripe (find_provider r.id s.providers)) r
    else r

row_renewed :
    (now : Time) (s : Db) (r : SubscriptionRow)
    → (if is_expired now r then found_new new s.plans (load s r) r else r) ≡ renewed_row now s r
unfolding renewed_row load
row_renewed now s r =
    ap (λ x. if is_expired now r then x else r)
      (found_renewed s (find_free s.plans) (plan_type_of r.plan_id s.plans) r refl)

-- Without a fault ProcessRenewals succeeds, and makes one pass over the table of subscriptions: an
-- active row past its expiry goes to the free plan if it is a trial (and there is a free plan), is
-- switched off if it is premium without Stripe, and every other row stays as it is.
pub process_renewals-exact :
    (now : Time) (s : Db)
    → HasUniqueIds s.subscriptions
    → let (r, _, s') = process_renewals now [] s in
      (r ≡ ok tt) × (s'.subscriptions ≡ map (renewed_row now s) s.subscriptions)
unfolding process_renewals Subscriptions.get_expired_subscriptions ◌>>=◌
process_renewals-exact now s unique =
    let pass =
      for_each-pass renew_sub new sub_body (is_expired now) s unique
        (λ sub. stored_id (find_free s.plans) sub.plan_type sub.has_stripe_subscription sub.row) in
    rw pass.run
      (refl, pass.rows_same ∙ ap (λ f. map f s.subscriptions) (λ i r. row_renewed now s r i))
