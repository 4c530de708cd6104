-- ===== src/BudgetService/Daily/Pass.antt =====
-- DailyProcessing of backend/internal/services/budgets/service.go, run without a fault, against what
-- it makes of the table.
use orgfin_diploma.BudgetService.{Service}
use orgfin_diploma.BudgetService.Daily.Renewals.{
  with_renewals, next_id, with_copy, with_copies, last_id, with_copies-renewals,
}
use orgfin_diploma.Repositories.Budgets.{
  joined, inserted_row, fits, archived_row, change, is_outdated, earlier_end,
}
use orgfin_diploma.Repositories.Budgets.Found.{
  has_id, HasUniqueIds, map-All, HasCurrencies, has_id-keep, scanned_run,
}
use orgfin_diploma.Exec.{◌>>=◌, ok}
use orgfin_diploma.Models.{Budget, Db, Time}
use orgfin_diploma.BudgetService.Daily.{process, process_each, copy_of, daily_processing}
use orgfin_diploma.Repositories.Budgets
use orgfin_diploma.Prelude.{
  ℕ, List, All, if◌then◌else◌, map, ◌∷◌, ◌≡◌, ◌≤◌, ◌<◌, arith, [], true, ◌==◌, false, sym,
  Bool-cases, inl, Bool, All-map_proof, length, ◌∙◌, inr, ap, refl, sort_by, keep, any-sort_by,
  length-sort_by, All-sort_by, All-keep_passed, All-keep,
}

-- The table after the rounds of some budgets.
rounds : List Budget → ℕ → List Budget → List Budget
rounds [] n bs = bs
rounds (y ∷ ys) n bs = rounds ys (next_id y n) (change y.id archived_row (with_copy y n bs))

-- The copy of a budget that repeats can be stored.
abbrev pub HasFittingCopy : Budget → Type 0
HasFittingCopy y = y.repeat ≡ true → fits (copy_of y) ≡ true

abbrev after_round : Budget → Db → Db
after_round y s = record s {
  budgets = change y.id archived_row (with_copy y s.next_budget_id s.budgets);
  next_budget_id = next_id y s.next_budget_id;
}

process_run :
    (y : Budget) (s : Db) → HasFittingCopy y → process y [] s ≡ (ok tt, [], after_round y s)
unfolding process Budgets.create Budgets.archive ◌>>=◌
process_run y s fit = elim (Bool-cases y.repeat) [ inl e ↦ rw (e, fit e) refl | inr e ↦ rw e refl ]

abbrev after_rounds : List Budget → Db → Db
after_rounds ys s = record s {
  budgets = rounds ys s.next_budget_id s.budgets;
  next_budget_id = last_id ys s.next_budget_id;
}

process_each_run :
    (s₀ : Db) (ys : List Budget) (s : Db)
    → All HasFittingCopy ys
    → process_each (map (joined s₀) ys) [] s ≡ (ok (length ys), [], after_rounds ys s)
unfolding process_each ◌>>=◌ rounds last_id
process_each_run s₀ [] s fit = refl
process_each_run s₀ (y ∷ ys) s fit =
    rw (process_run y s fit.0, process_each_run s₀ ys (after_round y s) fit.1) refl

-- Archives the rows with an id among some budgets.
abbrev archive_among : List Budget → Budget → Budget
archive_among ys r = if has_id r.id ys then archived_row r else r

archive_twice :
    (y : Budget) (ys : List Budget) (r : Budget)
    → archive_among ys (if r.id == y.id then archived_row r else r) ≡ archive_among (y ∷ ys) r
archive_twice y ys r = elim (Bool-cases (r.id == y.id)) [
  | inl e ↦ rw e (archived_same (has_id r.id ys))
  | inr e ↦ rw e refl
]
  where
    archived_same :
        (b : Bool) → (if b then archived_row (archived_row r) else archived_row r) ≡ archived_row r
    archived_same true = refl
    archived_same false = refl

map_twice :
    (y : Budget) (ys bs : List Budget)
    → map (archive_among ys) (change y.id archived_row bs) ≡ map (archive_among (y ∷ ys)) bs
map_twice y ys [] = refl
map_twice y ys (r ∷ bs) = rw (archive_twice y ys r, map_twice y ys bs) refl

fresh_id : (n : ℕ) (ys : List Budget) → All (λ y. y.id < n) ys → has_id n ys ≡ false
fresh_id n [] h = refl
fresh_id n (y ∷ ys) h =
    let e : (n == y.id) ≡ false = ground (arith, h.0) in rw e (fresh_id n ys h.1)

-- A copy is not archived, for its id is new.
copy_kept :
    (y : Budget) (ys : List Budget) (n : ℕ) (bs : List Budget)
    → All (λ z. z.id < n) (y ∷ ys)
    → map (archive_among (y ∷ ys)) (with_copy y n bs)
      ≡ with_copy y n (map (archive_among (y ∷ ys)) bs)
copy_kept y ys n bs below = elim (Bool-cases y.repeat) [
  | inl e ↦ rw e (rw (fresh_id n (y ∷ ys) below) refl)
  | inr e ↦ rw e refl
]

later_id : (y : Budget) (n : ℕ) → n ≤ next_id y n
later_id y n = ground arith

rounds-eq-with_copies :
    (ys : List Budget) (n : ℕ) (bs : List Budget)
    → All (λ y. y.id < n) ys
    → rounds ys n bs ≡ with_copies ys n (map (archive_among ys) bs)
unfolding rounds with_copies
rounds-eq-with_copies [] n bs below = sym (map-id_lem bs)
  where
    map-id_lem : (bs : List Budget) → map (archive_among []) bs ≡ bs
    map-id_lem [] = refl
    map-id_lem (b ∷ bs) = rw (map-id_lem bs) refl
rounds-eq-with_copies (y ∷ ys) n bs below =
    rounds-eq-with_copies ys (next_id y n) _ (All-map_proof (λ z lt. lt_next z lt) ys below.1)
    ∙ ap (with_copies ys (next_id y n))
        (map_twice y ys (with_copy y n bs) ∙ copy_kept y ys n bs below)
  where
    lt_next : (z : Budget) → z.id < n → z.id < next_id y n
    lt_next z lt = omega (arith, later_id y n, lt)

-- The budgets that a run processes, in their order.
abbrev pub outdated_of : Service → Time → Db → List Budget
outdated_of svc now s = sort_by (earlier_end svc.ties) (keep (is_outdated now) s.budgets)

-- What the table and the sequence of ids guarantee, and the copies can be stored.
pub record IsReady (now : Time) (s : Db) : Type 0 where
  pub unique : HasUniqueIds s.budgets
  pub known : HasCurrencies s
  pub below : All (λ b. b.id < s.next_budget_id) s.budgets
  pub fitting : All (λ b. is_outdated now b ≡ true → HasFittingCopy b) s.budgets

-- The table after a run.
abbrev pub archive_outdated : Time → Budget → Budget
archive_outdated now b = if is_outdated now b then archived_row b else b

abbrev pub daily_table : Service → Time → Db → List Budget
daily_table svc now s =
    with_copies (outdated_of svc now s) s.next_budget_id (map (archive_outdated now) s.budgets)

archived_pass :
    (svc : Service) (now : Time) (s : Db)
    → HasUniqueIds s.budgets
    → map (archive_among (outdated_of svc now s)) s.budgets ≡ map (archive_outdated now) s.budgets
archived_pass svc now s unique = map-All _ _ s.budgets (
    All-map_proof
      (λ c e.
        ap (λ b. if b then archived_row c else c)
          (any-sort_by (earlier_end svc.ties) (λ b. c.id == b.id) (keep (is_outdated now) s.budgets)
            ∙ e))
      s.budgets (has_id-keep (is_outdated now) s.budgets unique))

module _ (svc : Service) (now : Time) (s : Db) (ready : IsReady now s) where
  pub daily_run : daily_processing svc now [] s ≡ (
    ok (length (outdated_of svc now s)),
    [],
    record s {
      budgets = daily_table svc now s;
      next_budget_id = last_id (outdated_of svc now s) s.next_budget_id;
    },
  )
  unfolding daily_processing Budgets.get_outdated_budgets ◌>>=◌
  daily_run =
      rw
        (
          scanned_run (earlier_end svc.ties) (is_outdated now) s ready.known,
          process_each_run s (outdated_of svc now s) s (
              All-sort_by (earlier_end svc.ties) HasFittingCopy (keep (is_outdated now) s.budgets)
                (All-keep_passed HasFittingCopy (is_outdated now) s.budgets ready.fitting)),
          rounds-eq-with_copies (outdated_of svc now s) s.next_budget_id s.budgets (
              All-sort_by (earlier_end svc.ties) (λ b. b.id < s.next_budget_id)
                (keep (is_outdated now) s.budgets)
                (All-keep (λ b. b.id < s.next_budget_id) (is_outdated now) s.budgets ready.below)),
          archived_pass svc now s ready.unique,
        )
        refl

-- Without a fault, if the copies can be stored, DailyProcessing counts the outdated budgets, archives
-- exactly these, and puts into the table one copy with a new id for each of them that repeats, with
-- its new dates and nothing collected, and no other row.
pub daily_processing-exact :
    (svc : Service) (now : Time) (s : Db)
    → IsReady now s
    → let (r, _, s') = daily_processing svc now [] s in
      (r ≡ ok (length (keep (is_outdated now) s.budgets)))
      × (s'.budgets
          ≡ with_renewals
              (outdated_of svc now s)
              s.next_budget_id
              (map (archive_outdated now) s.budgets))
daily_processing-exact svc now s ready = rw (daily_run svc now s ready) (
  ap ok (length-sort_by (earlier_end svc.ties) (keep (is_outdated now) s.budgets)),
  with_copies-renewals (outdated_of svc now s) s.next_budget_id
      (map (archive_outdated now) s.budgets),
)
