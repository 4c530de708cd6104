-- ===== src/CurrencyService/Conversion.antt =====
-- The rates that backend/internal/repositories/exchange_rate.go finds, and ConvertAmount of
-- backend/internal/services/currency/service.go as the converter of the service of budgets.
use orgfin_diploma.Models.{ExchangeRates, Db}
use orgfin_diploma.Repositories.ExchangeRates.{
  RateTies, first_row, back_fill, forward_fill, newer, is_past, is_coming, older,
}
use orgfin_diploma.Exec.{◌>>=◌, row_of, Result, ok, err, Error}
use orgfin_diploma.Repositories.ExchangeRates
use orgfin_diploma.Prelude.{
  ℕ, Option, List, some, [], none, ◌≡◌, sort_by, refl, All, ◌≤◌, ◌∷◌, false, arith, true, Bool,
  Decides, HasRow, subst, keep, All-map_proof, sort_by-first, All-sort_by, All-zip_proof,
  All-keep_back, All-sort_by_back, All-keep, All-rows, All-keep_passed,
}

-- The rates of the nearest past date, or else of the nearest coming one.
abbrev or_else : Option ExchangeRates → Option ExchangeRates → Option ExchangeRates
or_else (some r) later = some r
or_else none later = later

unfoldable pub nearest : RateTies → ℕ → List ExchangeRates → Option ExchangeRates
nearest ties date rows = or_else (back_fill ties date rows) (forward_fill ties date rows)

rates_run_of :
    (ties : RateTies) (date : ℕ) (s : Db) (past : Option ExchangeRates)
    → back_fill ties date s.exchange_rates ≡ past
    → ExchangeRates.get_all_rates_for_date ties date [] s
      ≡ (row_of (or_else past (forward_fill ties date s.exchange_rates)), [], s)
unfolding ExchangeRates.get_all_rates_for_date ◌>>=◌
rates_run_of ties date s none h = rw h refl
rates_run_of ties date s (some r) h = rw h refl

pub rates_run :
    (ties : RateTies) (date : ℕ) (s : Db)
    → ExchangeRates.get_all_rates_for_date ties date [] s
      ≡ (row_of (nearest ties date s.exchange_rates), [], s)
unfolding nearest
rates_run ties date s = rates_run_of ties date s (back_fill ties date s.exchange_rates) refl

Decides-newer : (ties : RateTies) → Decides (newer ties) (λ a b. b.actual_date ≤ a.actual_date)
Decides-newer ties = record {
  holds = λ a b e. ground (arith, e);
  fails = λ a b e. ground (arith, e);
  same = λ a. omega arith;
  trans = λ a b c p q. omega (arith, p, q);
}

Decides-older : (ties : RateTies) → Decides (older ties) (λ a b. a.actual_date ≤ b.actual_date)
Decides-older ties = record {
  holds = λ a b e. ground (arith, e);
  fails = λ a b e. ground (arith, e);
  same = λ a. omega arith;
  trans = λ a b c p q. omega (arith, p, q);
}

-- The first row of a sort of the rows that pass a test: such a row, and before the others.
record IsFirst (R : ExchangeRates → ExchangeRates → Type 0) (p : ExchangeRates → Bool)
    (rows : List ExchangeRates) (r : ExchangeRates) : Type 0 where
  row : HasRow r rows
  passes : p r ≡ true
  leads : All (λ x. p x ≡ true → R r x) rows

module _ (before : ExchangeRates → ExchangeRates → Bool)
    (R : ExchangeRates → ExchangeRates → Type 0) (d : Decides before R) (p : ExchangeRates → Bool)
    (rows : List ExchangeRates) where
  first_holds :
      (Q : ExchangeRates → Type 0) (ys : List ExchangeRates) {r : ExchangeRates}
      → first_row ys ≡ some r
      → All Q ys
      → Q r
  first_holds Q [] e h = cc
  first_holds Q (y ∷ ys) e h = subst Q (cc e) h.0

  first_leads :
      (ys : List ExchangeRates) {r : ExchangeRates}
      → sort_by before (keep p rows) ≡ ys
      → first_row ys ≡ some r
      → All (R r) (keep p rows)
  first_leads [] e h = cc
  first_leads (y ∷ ys) e h =
      subst (λ x. All (R x) (keep p rows)) (cc h) (sort_by-first before R d (keep p rows) ys y e)

  IsFirst-found :
      {r : ExchangeRates} → first_row (sort_by before (keep p rows)) ≡ some r → IsFirst R p rows r
  IsFirst-found {r} h = record {
    row =
        first_holds (λ x. HasRow x rows) _ h
          (All-sort_by before _ (keep p rows) (All-keep _ p rows (All-rows rows)));
    passes =
        first_holds (λ x. p x ≡ true) _ h
          (All-sort_by before _ (keep p rows)
            (All-keep_passed _ p rows (All-map_proof (λ x _ e. e) rows (All-rows rows))));
    leads = All-keep_back (R r) p rows (first_leads (sort_by before (keep p rows)) refl h);
  }

  none_of : (ys : List ExchangeRates) → first_row ys ≡ none → All (λ x. ⊥) ys
  none_of [] h = tt
  none_of (y ∷ ys) h = cc

  none_found : first_row (sort_by before (keep p rows)) ≡ none → All (λ x. p x ≡ false) rows
  none_found h =
      All-map_proof (λ x h. not_true (p x) h) rows
        (All-keep_back _ p rows (
          All-sort_by_back before (λ x. ⊥) (keep p rows)
            (none_of (sort_by before (keep p rows)) h)))
    where
      not_true : (b : Bool) → (b ≡ true → ⊥) → b ≡ false
      not_true true h = absurd (h refl)
      not_true false h = refl

-- Which row a lookup answers: of the rows that are not deleted, the newest up to the date, or where
-- there is none of these the oldest after it; it finds nothing exactly where all rows are deleted.
pub data IsNearest (date : ℕ) (rows : List ExchangeRates) : Result ExchangeRates → Type 0 where
  past :
      (r : ExchangeRates)
      → HasRow r rows
      → is_past date r ≡ true
      → All (λ x. is_past date x ≡ true → x.actual_date ≤ r.actual_date) rows
      → IsNearest date rows (ok r)
  coming :
      (r : ExchangeRates)
      → HasRow r rows
      → is_coming date r ≡ true
      → All (λ x. is_past date x ≡ false) rows
      → All (λ x. is_coming date x ≡ true → r.actual_date ≤ x.actual_date) rows
      → IsNearest date rows (ok r)
  nothing : All (λ x. x.is_deleted ≡ true) rows → IsNearest date rows (err Error.no_rows)

module _ (ties : RateTies) (date : ℕ) (rows : List ExchangeRates) where
  All-deleted :
      All (λ x. is_past date x ≡ false) rows
      → All (λ x. is_coming date x ≡ false) rows
      → All (λ x. x.is_deleted ≡ true) rows
  All-deleted = All-zip_proof (λ x e f. ground (arith, e, f)) rows

  coming-IsNearest :
      (r : Option ExchangeRates)
      → All (λ x. is_past date x ≡ false) rows
      → forward_fill ties date rows ≡ r
      → IsNearest date rows (row_of r)
  unfolding forward_fill
  coming-IsNearest none old h =
      nothing
        (All-deleted old (none_found (older ties) _ (Decides-older ties) (is_coming date) rows h))
  coming-IsNearest (some r) old h =
      let f = IsFirst-found (older ties) _ (Decides-older ties) (is_coming date) rows h in
      coming r f.row f.passes old f.leads

  IsNearest-of :
      (r : Option ExchangeRates)
      → back_fill ties date rows ≡ r
      → IsNearest date rows (row_of (or_else r (forward_fill ties date rows)))
  unfolding back_fill
  IsNearest-of none h =
      coming-IsNearest (forward_fill ties date rows)
        (none_found (newer ties) _ (Decides-newer ties) (is_past date) rows h) refl
  IsNearest-of (some r) h =
      let f = IsFirst-found (newer ties) _ (Decides-newer ties) (is_past date) rows h in
      past r f.row f.passes f.leads

-- Without a fault GetAllRatesForDate changes nothing and answers the nearest rates, past before
-- coming, however ties are broken: it reports no rows exactly if every row is deleted.
pub get_all_rates_for_date-IsNearest :
    (ties : RateTies) (date : ℕ) (s : Db)
    → let (r, _, s') = ExchangeRates.get_all_rates_for_date ties date [] s in
      (s' ≡ s) × IsNearest date s.exchange_rates r
unfolding nearest
get_all_rates_for_date-IsNearest ties date s =
    rw (rates_run ties date s)
      (refl, IsNearest-of ties date s.exchange_rates (back_fill ties date s.exchange_rates) refl)
