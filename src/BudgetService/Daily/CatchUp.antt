-- ===== src/BudgetService/Daily/CatchUp.antt =====
-- Days of DailyProcessing of backend/internal/services/budgets/service.go that were missed: how many
-- runs make up for them.
use orgfin_diploma.BudgetService.Daily.Behind.{IsBehind, copy-IsBehind, copy_fits}
use orgfin_diploma.Repositories.Budgets.Found.{
  HasUniqueIds-map, All-map, HasUniqueIds, HasCurrencies,
}
use orgfin_diploma.Repositories.Lookups.{find_currency}
use orgfin_diploma.BudgetService.Daily.Pass.{outdated_of, IsReady, archive_outdated, daily_run}
use orgfin_diploma.BudgetService.Daily.Renewals.{with_copies, last_id, with_copy_cases}
use orgfin_diploma.Repositories.Budgets.{
  inserted_row, is_outdated, is_some, archived_row, earlier_end,
}
use orgfin_diploma.BudgetService.Daily.{copy_of, daily_processing}
use orgfin_diploma.BudgetService.{Service}
use orgfin_diploma.Models.{Budget, Time, Db}
use orgfin_diploma.Prelude.{
  ℕ, ◌≡◌, suc, ◌+◌, true, false, [], arith, Bool-cases, inl, zero, inr, refl, All, List, map, keep,
  All-map_proof, ◌∷◌, All-sort_by, ◌<◌, ◌≢◌, All-keep_passed, All-keep,
}

-- The runs of some rounds of the worker at one time, without a fault.
unfoldable pub run_daily : ℕ → Service → Time → Db → Db
run_daily zero svc now s = s
run_daily (suc k) svc now s = run_daily k svc now (daily_processing svc now [] s).2

-- What holds of the rows, and of every copy, holds of the table with the copies.
All-with_copies {ℓ} :
    (P : Budget → Type ℓ) (ys : List Budget) (n : ℕ) (bs : List Budget)
    → All (λ y. (i : ℕ) → P (inserted_row (copy_of y) i)) ys
    → All P bs
    → All P (with_copies ys n bs)
unfolding with_copies
All-with_copies P [] n bs h k = k
All-with_copies P (y ∷ ys) n bs h k = elim (with_copy_cases y n bs) [
  | inl e ↦
      rw (e.0, e.1) (All-with_copies P ys (n + 1) (inserted_row (copy_of y) n ∷ bs) h.1 (h.0 n, k))
  | inr e ↦ rw (e.0, e.1) (All-with_copies P ys n bs h.1 k)
]

-- Rows with ids of their own, all below the next one.
abbrev HasIdsBelow : ℕ → List Budget → Type 0
HasIdsBelow n bs = HasUniqueIds bs × All (λ b. b.id < n) bs

with_copies-HasIdsBelow :
    (ys : List Budget) (n : ℕ) (bs : List Budget)
    → HasIdsBelow n bs
    → HasIdsBelow (last_id ys n) (with_copies ys n bs)
unfolding with_copies last_id
with_copies-HasIdsBelow [] n bs h = h
with_copies-HasIdsBelow (y ∷ ys) n bs (unique, below) = elim (with_copy_cases y n bs) [
  | inl e ↦
      rw (e.0, e.1)
        (with_copies-HasIdsBelow ys (n + 1) (inserted_row (copy_of y) n ∷ bs) (
          (All-map_proof (λ b lt. ne_of_lt b lt) bs below, unique),
          (omega arith, All-map_proof (λ b lt. lt_suc b lt) bs below),
        ))
  | inr e ↦ rw (e.0, e.1) (with_copies-HasIdsBelow ys n bs (unique, below))
]
  where
    ne_of_lt : (b : Budget) → b.id < n → b.id ≢ n
    ne_of_lt b lt e = omega (arith, lt, e)

    lt_suc : (b : Budget) → b.id < n → b.id < n + 1
    lt_suc b lt = omega (arith, lt)

-- Every outdated budget is behind by some days at most, in a table as the database keeps it.
pub record CanCatchUp (days : ℕ) (now : Time) (s : Db) : Type 0 where
  pub unique : HasUniqueIds s.budgets
  pub known : HasCurrencies s
  pub below : All (λ b. b.id < s.next_budget_id) s.budgets
  pub behind : All (λ b. is_outdated now b ≡ true → IsBehind days now b) s.budgets

CanCatchUp-IsReady : (k : ℕ) (now : Time) (s : Db) → CanCatchUp (suc k) now s → IsReady now s
CanCatchUp-IsReady k now s h = record {
  unique = h.unique;
  known = h.known;
  below = h.below;
  fitting = All-map_proof (λ b behind old _. copy_fits k now b (behind old)) s.budgets h.behind;
}

archived_not :
    (days : ℕ) (now : Time) (b : Budget)
    → is_outdated now (archive_outdated now b) ≡ true
    → IsBehind days now (archive_outdated now b)
archived_not days now b h = elim (Bool-cases (is_outdated now b)) [
  | inl e ↦ cc (archived_false (rw e at h))
  | inr e ↦ cc
]
  where
    archived_false : is_outdated now (archived_row b) ≡ true → true ≡ false
    archived_false p = ground (arith, p)

module _ (svc : Service) (k : ℕ) (now : Time) (s : Db) (h : CanCatchUp (suc k) now s) where
  -- What holds of every outdated row holds of those that the run reads.
  All-outdated {ℓ} :
      (P : Budget → Type ℓ)
      → All P (keep (is_outdated now) s.budgets)
      → All P (outdated_of svc now s)
  All-outdated P = All-sort_by (earlier_end svc.ties) P (keep (is_outdated now) s.budgets)

  same_id : (b : Budget) → (archive_outdated now b).id ≡ b.id
  same_id b = elim (Bool-cases (is_outdated now b)) [ inl e ↦ rw e | inr e ↦ rw e ]

  ids_below : HasIdsBelow s.next_budget_id (map (archive_outdated now) s.budgets)
  ids_below = (
    HasUniqueIds-map (archive_outdated now) same_id s.budgets h.unique,
    All-map (λ b. b.id < s.next_budget_id) (archive_outdated now) (λ b lt. rw (same_id b) lt)
        s.budgets h.below,
  )

  currency_known :
      (b : Budget)
      → is_some (find_currency b.currency_id s.currencies) ≡ true
      → is_some (find_currency (archive_outdated now b).currency_id s.currencies) ≡ true
  currency_known b e = elim (Bool-cases (is_outdated now b)) [ inl f ↦ rw f e | inr f ↦ rw f e ]

  -- One run makes up for one day.
  daily_processing-CanCatchUp : CanCatchUp k now (daily_processing svc now [] s).2
  unfolding copy_of
  daily_processing-CanCatchUp =
      let ids =
        with_copies-HasIdsBelow (outdated_of svc now s) s.next_budget_id
          (map (archive_outdated now) s.budgets) ids_below in
      rw (daily_run svc now s (CanCatchUp-IsReady k now s h)) (record {
        unique = ids.0;
        known =
            All-with_copies (λ b. is_some (find_currency b.currency_id s.currencies) ≡ true)
              (outdated_of svc now s) s.next_budget_id _
              (All-outdated _ (
                All-keep _ (is_outdated now) s.budgets
                  (All-map_proof (λ b e _. e) s.budgets h.known)))
              (All-map _ (archive_outdated now) currency_known s.budgets h.known);
        below = ids.1;
        behind =
            All-with_copies (λ b. is_outdated now b ≡ true → IsBehind k now b)
              (outdated_of svc now s) s.next_budget_id _
              (All-outdated _ (
                All-map_proof (λ b behind i _. copy-IsBehind k now b i behind)
                  (keep (is_outdated now) s.budgets)
                  (All-keep_passed (IsBehind (suc k) now) (is_outdated now) s.budgets h.behind)))
              (All-map _ (archive_outdated now) (λ b _. archived_not k now b) s.budgets h.behind);
      })

none_outdated :
    (now : Time) (bs : List Budget)
    → All (λ b. is_outdated now b ≡ true → IsBehind 0 now b) bs
    → keep (is_outdated now) bs ≡ []
none_outdated now [] h = refl
none_outdated now (b ∷ bs) h = elim (Bool-cases (is_outdated now b)) [
  | inl e ↦ absurd (not_behind e (h.0 e))
  | inr e ↦ rw e (none_outdated now bs h.1)
]
  where
    not_behind : is_outdated now b ≡ true → IsBehind 0 now b → ⊥
    not_behind e behind = ground (arith, e, behind.late)

-- If every outdated budget ended at most a number of days ago, lasts a day at least where its period
-- is a custom one, and has a name that leaves room for a suffix for each of these days, then as many
-- runs of DailyProcessing without a fault leave no outdated budget: the copies that a run makes of
-- repeating budgets, which may be outdated themselves, are used up.
pub run_daily-catches_up :
    (svc : Service) (days : ℕ) (now : Time) (s : Db)
    → CanCatchUp days now s
    → keep (is_outdated now) (run_daily days svc now s).budgets ≡ []
unfolding run_daily
run_daily-catches_up svc zero now s h = none_outdated now s.budgets h.behind
run_daily-catches_up svc (suc k) now s h =
    run_daily-catches_up svc k now (daily_processing svc now [] s).2
      (daily_processing-CanCatchUp svc k now s h)
