-- ===== src/Lifecycle/Selections.antt =====
-- No pending downgrade keeps more accounts than the free plan allows.
use orgfin_diploma.Prelude.{
  ℕ, ◌≡◌, ◌≤◌, refl, subst, Option, none, some, List, [], ◌∷◌, length, All, All-find_first,
  find_first, Bool-cases, inl, inr, ◌==◌, ◌+◌,
}
use orgfin_diploma.Models.{PlanType, SubscriptionRow, Subscription, ProviderSubscription, Db}
use orgfin_diploma.Exec.{ok, row_of}
use orgfin_diploma.Exec.Answers.{Yields, Yields-query}
use orgfin_diploma.Exec.Keeps.{
  Keeps, keeps, Keeps-read, Keeps-bind, Keeps-bind_answer, Keeps-bind_ensured, Keeps-statement,
  Keeps-inserting, Keeps-attempt, Keeps-pure, Keeps-no_rows_as, Keeps-optional, Keeps-query,
  Keeps-raise_if, Keeps-when,
}
use orgfin_diploma.SubscriptionService.Reads.{plan_reads}
use orgfin_diploma.Repositories.Subscriptions
use orgfin_diploma.Repositories.Subscriptions.{
  find, find_by_user, load_found, load, with_type, change, set_some, set_all, plan_type_of,
  load_all, add_row,
}

abbrev pub HasFewAccounts : SubscriptionRow → Type 0
HasFewAccounts r = length r.pending_downgrade_account_ids ≤ 2

abbrev pub HasFewSelected : Db → Type 0
HasFewSelected s = All HasFewAccounts s.subscriptions

abbrev pub IsSmall : Subscription → Type 0
IsSmall sub = HasFewAccounts sub.row

-- Loading.
load_fits :
    (s : Db) (r : SubscriptionRow) (k : Option PlanType) (sub : Subscription)
    → HasFewAccounts r
    → with_type s r k ≡ some sub
    → IsSmall sub
unfolding with_type
load_fits s r none sub h e = cc
load_fits s r (some k) sub h e = let same : r ≡ sub.row = cc e in subst HasFewAccounts same h

found_fits :
    (s : Db) (o : Option SubscriptionRow) (sub : Subscription)
    → ((r : SubscriptionRow) → o ≡ some r → HasFewAccounts r)
    → row_of (load_found s o) ≡ ok sub
    → IsSmall sub
unfolding load_found load
found_fits s none sub h e = cc
found_fits s (some r) sub h e =
    load_fits s r (plan_type_of r.plan_id s.plans) sub (h r refl)
      (loaded (with_type s r (plan_type_of r.plan_id s.plans)) e)
  where
    loaded : (o : Option Subscription) → row_of o ≡ ok sub → o ≡ some sub
    loaded none k = cc
    loaded (some x) k = cc k

pub get_by_user-IsSmall : (u : ℕ) → Yields HasFewSelected IsSmall (Subscriptions.get_by_user_id u)
unfolding Subscriptions.get_by_user_id find_by_user
get_by_user-IsSmall u = Yields-query _ (λ s sub few e.
    found_fits s (find_first (λ r. r.user_id == u) s.subscriptions) sub
      (λ r. All-find_first HasFewAccounts (λ r. r.user_id == u) s.subscriptions few) e)

pub get_by_id-IsSmall : (i : ℕ) → Yields HasFewSelected IsSmall (Subscriptions.get_by_id i)
unfolding Subscriptions.get_by_id find
get_by_id-IsSmall i = Yields-query _ (λ s sub few e.
    found_fits s (find_first (λ r. r.id == i) s.subscriptions) sub
      (λ r. All-find_first HasFewAccounts (λ r. r.id == i) s.subscriptions few) e)

-- Writing.
change_few :
    (i : ℕ) (f : SubscriptionRow → SubscriptionRow) (rows : List SubscriptionRow)
    → ((r : SubscriptionRow) → HasFewAccounts r → HasFewAccounts (f r))
    → All HasFewAccounts rows
    → All HasFewAccounts (change i f rows)
unfolding change
change_few i f [] h few = tt
change_few i f (r ∷ rows) h few = elim (Bool-cases (r.id == i)) [
  | inl e ↦ rw e (h r few.0, change_few i f rows h few.1)
  | inr e ↦ rw e (few.0, change_few i f rows h few.1)
]

pub update-HasFewSelected : (b : SubscriptionRow) → Keeps HasFewSelected (Subscriptions.update b)
unfolding Subscriptions.update
update-HasFewSelected b =
    Keeps-statement _ (λ s. change_few b.id (set_some b) s.subscriptions (λ r h. h))

pub update_full-HasFewSelected :
    (b : SubscriptionRow) → HasFewAccounts b → Keeps HasFewSelected (Subscriptions.update_full b)
unfolding Subscriptions.update_full
update_full-HasFewSelected b few =
    Keeps-statement _ (λ s. change_few b.id (set_all b) s.subscriptions (λ r h. few))

pub create-HasFewSelected :
    (b : SubscriptionRow) → HasFewAccounts b → Keeps HasFewSelected (Subscriptions.create b)
unfolding Subscriptions.create add_row
create-HasFewSelected b few =
    Keeps-inserting _ (λ s. added (find_by_user b.user_id s.subscriptions) s)
  where
    added :
        (other : Option SubscriptionRow) (s : Db) (r : SubscriptionRow) (t : Db)
        → HasFewSelected s
        → add_row b s other ≡ some (r, t)
        → HasFewSelected t
    added (some x) s r t h e = cc
    added none s r t h e =
        let s' : Db = record s {
          subscriptions = record b { id = s.next_subscription_id } ∷ s.subscriptions;
          next_subscription_id = s.next_subscription_id + 1;
        } in
        let same : s' ≡ t = cc e in subst HasFewSelected same (few, h)

pub update_provider-HasFewSelected :
    (p : ProviderSubscription) → Keeps HasFewSelected (Subscriptions.update_provider p)
unfolding Subscriptions.update_provider
update_provider-HasFewSelected p = Keeps-statement _ (λ s h. h)

pub create_provider-HasFewSelected :
    (p : ProviderSubscription) → Keeps HasFewSelected (Subscriptions.create_provider p)
unfolding Subscriptions.create_provider
create_provider-HasFewSelected p = Keeps-statement _ (λ s h. h)

-- The rules for actions that do not write the chosen accounts.
pub ruleset few_selected = (
  keeps, Keeps-read, plan_reads, update-HasFewSelected, update_provider-HasFewSelected,
  create_provider-HasFewSelected,
)
