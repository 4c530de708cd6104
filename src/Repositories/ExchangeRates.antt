-- ===== src/Repositories/ExchangeRates.antt =====
-- The lookup of rates of backend/internal/repositories/exchange_rate.go. A date is a day number; two
-- services may have stored rates for one date, and a test breaks such ties.
use orgfin_diploma.Models.{ExchangeRates}
use orgfin_diploma.Exec.{Exec, ◌>>=◌, optional, pure, query, row_of}
use orgfin_diploma.Prelude.{
  ℕ, Bool, Option, sort_by, List, leb, none, some, ltb, keep, ◌&&◌, ◌∷◌, ◌||◌, ◌==◌, [], not,
}

abbrev pub RateTies : Type 0
RateTies = ExchangeRates → ExchangeRates → Bool

-- ORDER BY actual_date DESC, and ASC.
abbrev pub newer : RateTies → ExchangeRates → ExchangeRates → Bool
newer ties a b = ltb b.actual_date a.actual_date || (b.actual_date == a.actual_date && ties a b)

abbrev pub older : RateTies → ExchangeRates → ExchangeRates → Bool
older ties a b = ltb a.actual_date b.actual_date || (a.actual_date == b.actual_date && ties a b)

-- LIMIT 1
abbrev pub first_row : List ExchangeRates → Option ExchangeRates
first_row [] = none
first_row (r ∷ rs) = some r

abbrev pub is_past : ℕ → ExchangeRates → Bool
is_past date r = leb r.actual_date date && not r.is_deleted

abbrev pub is_coming : ℕ → ExchangeRates → Bool
is_coming date r = leb date r.actual_date && not r.is_deleted

unfoldable pub back_fill : RateTies → ℕ → List ExchangeRates → Option ExchangeRates
unfolding sort_by
back_fill ties date rows = first_row (sort_by (newer ties) (keep (is_past date) rows))

unfoldable pub forward_fill : RateTies → ℕ → List ExchangeRates → Option ExchangeRates
unfolding sort_by
forward_fill ties date rows = first_row (sort_by (older ties) (keep (is_coming date) rows))

-- The second query, where the first has found nothing.
abbrev pub or_forward : RateTies → ℕ → Option ExchangeRates → Exec ExchangeRates
or_forward ties date (some r) = pure r
or_forward ties date none = query (λ s. row_of (forward_fill ties date s.exchange_rates))

-- getAllRatesWithFallback, and GetAllRatesForDate, whose snapshot is the row.
unfoldable pub get_all_rates_for_date : RateTies → ℕ → Exec ExchangeRates
unfolding back_fill forward_fill
get_all_rates_for_date ties date = do
  found ← optional (query (λ s. row_of (back_fill ties date s.exchange_rates)))
  or_forward ties date found
