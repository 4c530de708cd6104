-- ===== src/Repositories/Subscriptions/Lookup.antt =====
-- What a lookup of a user's subscription finds after an UPDATE and after a pass over the table.
use orgfin_diploma.Prelude.{
  ℕ, ◌≡◌, ◌≢◌, refl, ap, ◌∙◌, some, Bool, true, false, List, [], ◌∷◌, map, All, Bool-cases, inl,
  inr, ◌==◌, if◌then◌else◌, eq→==, not, ne→==, ==→eq, none, ◌+◌,
}
use orgfin_diploma.Models.{SubscriptionRow, SubscriptionPlan, Db}
use orgfin_diploma.Exec.{ok, ◌>>=◌}
use orgfin_diploma.Repositories.Subscriptions
use orgfin_diploma.Repositories.Plans
use orgfin_diploma.Repositories.Plans.Free.{HasUniqueIds as HasUniquePlanIds}
use orgfin_diploma.Repositories.Subscriptions.{change, find_by_user, plan_type_of, add_row}
use orgfin_diploma.Repositories.Subscriptions.Sweep.{HasUniqueIds}

module _ (u : ℕ) (x : SubscriptionRow) (rows : List SubscriptionRow) where
  pub find_by_user-here : (x.user_id == u) ≡ true → find_by_user u (x ∷ rows) ≡ some x
  unfolding find_by_user
  find_by_user-here e = rw e refl

  find_by_user-there : (x.user_id == u) ≡ false → find_by_user u (x ∷ rows) ≡ find_by_user u rows
  unfolding find_by_user
  find_by_user-there e = rw e refl

module _ (u : ℕ) (f : SubscriptionRow → SubscriptionRow)
    (same : (r : SubscriptionRow) → (f r).user_id ≡ r.user_id) where
  same_test : (x : SubscriptionRow) {b : Bool} → (x.user_id == u) ≡ b → ((f x).user_id == u) ≡ b
  same_test x e = ap (λ n. n == u) (same x) ∙ e

  -- A pass that keeps the user of a row.
  pub find_by_user-map :
      (rows : List SubscriptionRow) {r : SubscriptionRow}
      → find_by_user u rows ≡ some r
      → find_by_user u (map f rows) ≡ some (f r)
  unfolding find_by_user
  find_by_user-map [] h = cc
  find_by_user-map (x ∷ rows) {r} h = elim (Bool-cases (x.user_id == u)) [
    | inl e ↦ find_by_user-here u (f x) (map f rows) (same_test x e) ∙ cc (rw e at h)
    | inr e ↦
        find_by_user-there u (f x) (map f rows) (same_test x e)
        ∙ find_by_user-map rows {r = r} (rw e at h)
  ]

  -- An UPDATE of the row that is found.
  pub find_by_user-change :
      (i : ℕ) (rows : List SubscriptionRow) {r : SubscriptionRow}
      → find_by_user u rows ≡ some r
      → r.id ≡ i
      → find_by_user u (change i f rows) ≡ some (f r)
  unfolding find_by_user change
  find_by_user-change i [] h id = cc
  find_by_user-change i (x ∷ rows) {r} h id = elim (Bool-cases (x.user_id == u)) [
    | inl e ↦ hit e (rw e at h)
    | inr e ↦
        find_by_user-there u (if x.id == i then f x else x) (change i f rows) (kept (x.id == i) e)
        ∙ find_by_user-change i rows {r = r} (rw e at h) id
  ]
    where
      kept : (b : Bool) → (x.user_id == u) ≡ false → ((if b then f x else x).user_id == u) ≡ false
      kept true e = same_test x e
      kept false e = e

      hit :
          (x.user_id == u) ≡ true
          → some x ≡ some r
          → find_by_user u (change i f (x ∷ rows)) ≡ some (f r)
      hit e k =
          rw (eq→== x.id i (cc (k, id)))
            (find_by_user-here u (f x) (change i f rows) (same_test x e) ∙ cc k)

change_unlike :
    (i n : ℕ) (f : SubscriptionRow → SubscriptionRow)
    → ((r : SubscriptionRow) → (f r).id ≡ r.id)
    → (rows : List SubscriptionRow) → All (λ x. x.id ≢ n) rows
    → All (λ x. x.id ≢ n) (change i f rows)
unfolding change
change_unlike i n f same [] h = tt
change_unlike i n f same (x ∷ rows) h = elim (Bool-cases (x.id == i)) [
  | inl e ↦ rw e (rw (same x) h.0, change_unlike i n f same rows h.1)
  | inr e ↦ rw e (h.0, change_unlike i n f same rows h.1)
]

pub change-HasUniqueIds :
    (i : ℕ) (f : SubscriptionRow → SubscriptionRow)
    → ((r : SubscriptionRow) → (f r).id ≡ r.id)
    → (rows : List SubscriptionRow) → HasUniqueIds rows
    → HasUniqueIds (change i f rows)
unfolding change
change-HasUniqueIds i f same [] h = tt
change-HasUniqueIds i f same (x ∷ rows) h = elim (Bool-cases (x.id == i)) [
  | inl e ↦
      rw e
        (rw (same x) (change_unlike i x.id f same rows h.0), change-HasUniqueIds i f same rows h.1)
  | inr e ↦ rw e (change_unlike i x.id f same rows h.0, change-HasUniqueIds i f same rows h.1)
]

find_plan_absent :
    (i n : ℕ) (ps : List SubscriptionPlan) {p : SubscriptionPlan}
    → n ≡ i
    → All (λ x. x.id ≢ n) ps
    → Plans.find i ps ≢ some p
unfolding Plans.find
find_plan_absent i n [] e h k = cc
find_plan_absent i n (q ∷ ps) {p} e h k =
    find_plan_absent i n ps {p = p} e h.1 (rw (ne→== q.id i (λ same. h.0 (cc (same, e)))) at k)

-- The plan that is joined is the one of that id.
pub plan_type_of-find :
    (i : ℕ) (ps : List SubscriptionPlan) {p : SubscriptionPlan}
    → HasUniquePlanIds ps
    → Plans.find i ps ≡ some p
    → plan_type_of i ps ≡ some p.plan_type
unfolding plan_type_of Plans.find
plan_type_of-find i [] unique h = cc
plan_type_of-find i (q ∷ ps) {p} unique h = elim (Bool-cases (q.id == i)) [
  | inl e ↦ rw e (only e q.is_deleted (rw e at h))
  | inr e ↦ rw e (plan_type_of-find i ps {p = p} unique.1 (rw e at h))
]
  where
    only :
        (q.id == i) ≡ true
        → (b : Bool) → (if not b then some q else Plans.find i ps) ≡ some p
        → some q.plan_type ≡ some p.plan_type
    only e true k = absurd (find_plan_absent i q.id ps {p = p} (==→eq q.id i e) unique.0 k)
    only e false k = cc k

-- A first subscription of a user, without a fault.
pub create_run :
    (r : SubscriptionRow) (s : Db)
    → find_by_user r.user_id s.subscriptions ≡ none
    → let r' = record r { id = s.next_subscription_id } in
      Subscriptions.create r [] s ≡ (
        ok r',
        [],
        record s {
          subscriptions = r' ∷ s.subscriptions;
          next_subscription_id = s.next_subscription_id + 1;
        },
      )
unfolding Subscriptions.create add_row ◌>>=◌
create_run r s absent = rw absent refl
