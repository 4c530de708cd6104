-- ===== src/BudgetService/Editing/Reads.antt =====
-- A budget that Create of backend/internal/services/budgets/service.go stores, and what GetByID reads.
use orgfin_diploma.BudgetService.Csv.RoundTrip.{parse_category_ids-categories_to_csv}
use orgfin_diploma.Calendar.{add_date_days}
use orgfin_diploma.Exec.{◌>>=◌, ok}
use orgfin_diploma.BudgetService.Recalc.{recalculate_budget}
use orgfin_diploma.BudgetService.Csv.{is_int, parse_category_ids}
use orgfin_diploma.Repositories.Lookups.{find_currency}
use orgfin_diploma.BudgetService.Editing.{with_params, blank, create}
use orgfin_diploma.BudgetService.Recalc.Sums.{set_collected, collected, recalculate_run}
use orgfin_diploma.Repositories.Budgets.{inserted_row, fits, change, scanned_row}
use orgfin_diploma.Models.{Db, Time, Budget, Currency, BudgetModel}
use orgfin_diploma.BudgetService.{Service, BudgetParams, IsConverter, parse_date}
use orgfin_diploma.Repositories.Budgets
use orgfin_diploma.Repositories.Lookups
use orgfin_diploma.Prelude.{
  ℕ, ◌∷◌, ◌+◌, ◌≡◌, some, same_text, false, true, All, ◌<◌, [], subst, refl, ==_refl, arith, ap,
  List, if◌then◌else◌, ◌==◌, ◌&&◌, not, ◌∙◌,
}

-- Dates that parse, a currency with a code, columns that fit, and a new id.
pub record CanCreate (svc : Service) (u : ℕ) (p : BudgetParams) (s : Db) : Type 0 where
  pub start_date : Time
  pub end_date : Time
  pub currency : Currency
  pub starts : parse_date svc p.start_date ≡ some start_date
  pub ends : parse_date svc p.end_date ≡ some end_date
  pub found : find_currency p.currency_id s.currencies ≡ some currency
  pub coded : same_text currency.code "" ≡ false
  pub fitting : fits (with_params svc p start_date end_date (blank u)) ≡ true
  pub ints : All (λ i. is_int i ≡ true) p.categories
  pub unused : All (λ b. b.id < s.next_budget_id) s.budgets

-- The first row of the table, by its id.
read_first :
    (t : Db) (b : Budget) (bs : List Budget) {c : Currency}
    → t.budgets ≡ b ∷ bs
    → b.is_deleted ≡ false
    → find_currency b.currency_id t.currencies ≡ some c
    → Budgets.get_by_id b.id [] t ≡ (ok (record { row = b; currency = some c }), [], t)
unfolding Budgets.get_by_id ◌>>=◌
read_first t b bs first kept found =
    ap (λ r. (r, [], t))
      (ap (λ cs. scanned_row t (Budgets.find b.id cs)) first
        ∙ ap (scanned_row t) (found_first b bs kept)
        ∙ read b found)
  where
    found_first :
        (b : Budget) (bs : List Budget) → b.is_deleted ≡ false → Budgets.find b.id (b ∷ bs) ≡ some b
    found_first b bs kept =
        ap (λ d. if (b.id == b.id) && not d then some b else Budgets.find b.id bs) kept
        ∙ rw (==_refl b.id)

    read :
        (b : Budget) {c : Currency}
        → find_currency b.currency_id t.currencies ≡ some c
        → scanned_row t (some b) ≡ ok (record { row = b; currency = some c })
    read b found = rw found refl

module _ (svc : Service) (conv : IsConverter svc.convert_amount) (u : ℕ) (p : BudgetParams) (s : Db)
    (can : CanCreate svc u p s) where
  -- The row that is stored, and then with what it collects.
  abbrev pub new_row : Budget
  new_row = inserted_row (with_params svc p can.start_date can.end_date (blank u)) s.next_budget_id

  abbrev pub created_db : Db
  created_db = record s { budgets = new_row ∷ s.budgets; next_budget_id = s.next_budget_id + 1 }

  abbrev final_row : Budget
  final_row = set_collected (collected svc conv u created_db new_row) new_row

  abbrev final_db : Db
  final_db = record created_db {
    budgets =
        change s.next_budget_id (set_collected (collected svc conv u created_db new_row))
          created_db.budgets;
  }

  recalculated :
      recalculate_budget svc.convert_amount u
        (record { row = new_row; currency = some can.currency })
        []
        created_db
      ≡ (ok (record { row = final_row; currency = some can.currency }), [], final_db)
  unfolding with_params
  recalculated =
      subst
        (λ o.
          recalculate_budget svc.convert_amount u (record { row = new_row; currency = o }) []
            created_db
          ≡ (ok (record { row = final_row; currency = o }), [], final_db))
        can.found
        (recalculate_run svc conv u created_db created_db.budgets new_row
          (rw (can.found) (can.coded)))

  create_run :
      create svc u p [] s
      ≡ (ok (record { row = final_row; currency = some can.currency }), [], final_db)
  unfolding create Budgets.create Lookups.get_currency ◌>>=◌
  create_run = rw (can.starts, can.ends, can.found, can.fitting) (rw recalculated refl)

  read_run :
      Budgets.get_by_id s.next_budget_id [] final_db
      ≡ (ok (record { row = final_row; currency = some can.currency }), [], final_db)
  unfolding with_params
  read_run =
      read_first final_db final_row
        (change s.next_budget_id (set_collected (collected svc conv u created_db new_row))
          s.budgets)
        (rw (==_refl s.next_budget_id) refl) refl can.found

-- Without a fault, with dates that parse, a currency with a code, and columns that fit, Create
-- succeeds, and GetByID reads under the new id the budget that it answers: its list of categories is
-- that of the params, its range is theirs with one more day, and it has collected the sum of the
-- user's expenses in that range and those categories.
pub create-reads_back :
    (svc : Service) (conv : IsConverter svc.convert_amount) (u : ℕ) (p : BudgetParams) (s : Db)
    (can : CanCreate svc u p s)
    → let (r, _, s') = create svc u p [] s in
      (m : BudgetModel) × (r ≡ ok m)
      × ((Budgets.get_by_id s.next_budget_id [] s').0 ≡ ok m)
      × (parse_category_ids m.row.included_categories ≡ p.categories)
      × (m.row.start_date ≡ can.start_date)
      × (m.row.end_date ≡ can.end_date + 86400000000)
      × (m.row.collected_amount
          ≡ collected svc conv u (created_db svc conv u p s can) (new_row svc conv u p s can))
unfolding with_params
create-reads_back svc conv u p s can = (
  record { row = final_row svc conv u p s can; currency = some can.currency },
  ap (λ o. o.0) (create_run svc conv u p s can),
  rw (create_run svc conv u p s can, read_run svc conv u p s can) refl,
  parse_category_ids-categories_to_csv p.categories can.ints,
  refl,
  added_day,
  refl,
)
  where
    added_day : add_date_days can.end_date 1 ≡ can.end_date + 86400000000
    added_day = unfold add_date_days in omega arith
