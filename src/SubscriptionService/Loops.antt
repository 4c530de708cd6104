-- ===== src/SubscriptionService/Loops.antt =====
-- Loops over the subscriptions that a query found, run without a fault: a body that updates the row
-- of its subscription and leaves the plans makes one pass over the table.
use orgfin_diploma.Prelude.{
  ◌≡◌, refl, sym, ◌∙◌, subst, Option, none, some, List, [], ◌∷◌, Bool, map, keep, if◌then◌else◌,
}
use orgfin_diploma.Models.{PlanType, SubscriptionPlan, SubscriptionRow, Subscription, Db}
use orgfin_diploma.Exec.{ok, Exec, ◌>>=◌, ◌>>◌, bind_ok, for_each}
use orgfin_diploma.Repositories.Subscriptions.{
  load, load_all, with_type, change, plan_type_of, cons_if, has_stripe, find_provider,
}
use orgfin_diploma.Repositories.Subscriptions.Sweep.{sweep, change-same, HasUniqueIds, sweep-keep}

-- A run that succeeds, and leaves these rows in the table of subscriptions and the same plans.
pub record Stores (m : Exec (Unit {0})) (s : Db) (rows : List SubscriptionRow) : Type 0 where
  pub after : Db
  pub run : m [] s ≡ (ok tt, [], after)
  pub rows_same : after.subscriptions ≡ rows
  pub plans_same : after.plans ≡ s.plans

pub Stores-then :
    (m n : Exec (Unit {0})) (s : Db) (rows rows' : List SubscriptionRow) (first : Stores m s rows)
    → Stores n first.after rows'
    → Stores (m >> n) s rows'
Stores-then m n s rows rows' first second = record {
  after = second.after;
  run = bind_ok m (λ _. n) first.run ∙ second.run;
  rows_same = second.rows_same;
  plans_same = second.plans_same ∙ first.plans_same;
}

-- The new row of a subscription as the query found it; one without a plan is not found.
abbrev pub found_new :
    (List SubscriptionPlan → Subscription → SubscriptionRow → SubscriptionRow)
    → List SubscriptionPlan
    → Option Subscription
    → SubscriptionRow
    → SubscriptionRow
found_new new plans none r = r
found_new new plans (some sub) r = new plans sub r

module _ (body : Subscription → Exec (Unit {0}))
    (new : List SubscriptionPlan → Subscription → SubscriptionRow → SubscriptionRow)
    (stores : (s : Db) (sub : Subscription)
      → Stores (body sub) s (change sub.row.id (new s.plans sub) s.subscriptions)) where
  -- The rest of the loop, by induction, and the body before it.
  round_pass :
      (s : Db) (x : SubscriptionRow) (xs : List SubscriptionRow) (k : Option PlanType)
      → ((t : Db)
          → t.plans ≡ s.plans
          → Stores
              (for_each body (load_all s xs))
              t
              (sweep (λ y. found_new new s.plans (load s y)) xs t.subscriptions))
      → (t : Db) → t.plans ≡ s.plans
      → Stores (for_each body (cons_if (with_type s x k) (load_all s xs))) t (
          sweep
            (λ y. found_new new s.plans (load s y))
            xs
            (change x.id (found_new new s.plans (with_type s x k)) t.subscriptions))
  unfolding for_each with_type
  round_pass s x xs none rest t same =
      subst
        (λ rows.
          Stores (for_each body (load_all s xs)) t
            (sweep (λ y. found_new new s.plans (load s y)) xs rows))
        (sym (change-same x.id t.subscriptions)) (rest t same)
  round_pass s x xs (some k) rest t same =
      let sub : Subscription = record {
        row = x;
        plan_type = k;
        has_stripe_subscription = has_stripe (find_provider x.id s.providers);
      } in
      let first : Stores (body sub) t (change x.id (new s.plans sub) t.subscriptions) =
        subst (λ plans. Stores (body sub) t (change x.id (new plans sub) t.subscriptions)) same
          (stores t sub) in
      Stores-then (body sub) (for_each body (load_all s xs)) t _ _ first (
        subst
          (λ rows.
            Stores (for_each body (load_all s xs)) first.after
              (sweep (λ y. found_new new s.plans (load s y)) xs rows))
          first.rows_same (rest first.after (first.plans_same ∙ same)))

  loop_pass :
      (s : Db) (xs : List SubscriptionRow) (t : Db)
      → t.plans ≡ s.plans
      → Stores
          (for_each body (load_all s xs))
          t
          (sweep (λ x. found_new new s.plans (load s x)) xs t.subscriptions)
  unfolding for_each load_all load sweep ◌>>=◌
  loop_pass s [] t same = record { after = t; run = refl; rows_same = refl; plans_same = refl }
  loop_pass s (x ∷ xs) t same =
      round_pass s x xs (plan_type_of x.plan_id s.plans) (loop_pass s xs) t same

  found_new-id :
      (plans : List SubscriptionPlan)
      → ((sub : Subscription) (r : SubscriptionRow) → (new plans sub r).id ≡ r.id)
      → (found : Option Subscription) (r : SubscriptionRow)
      → (found_new new plans found r).id ≡ r.id
  found_new-id plans same_id none r = refl
  found_new-id plans same_id (some sub) r = same_id sub r

  -- The rows that pass a test are found, and each is updated.
  pub for_each-pass :
      (p : SubscriptionRow → Bool) (s : Db)
      → HasUniqueIds s.subscriptions
      → ((sub : Subscription) (r : SubscriptionRow) → (new s.plans sub r).id ≡ r.id)
      → Stores
          (for_each body (load_all s (keep p s.subscriptions)))
          s
          (map (λ r. if p r then found_new new s.plans (load s r) r else r) s.subscriptions)
  for_each-pass p s unique same_id =
      subst (Stores (for_each body (load_all s (keep p s.subscriptions))) s)
        (sweep-keep (λ x. found_new new s.plans (load s x)) p
          (λ x. found_new-id s.plans same_id (load s x)) s.subscriptions unique)
        (loop_pass s (keep p s.subscriptions) s refl)
