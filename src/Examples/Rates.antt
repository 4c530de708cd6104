-- ===== src/Examples/Rates.antt =====
-- The results on currencies, each at a table with the rates of one day.
use orgfin_diploma.CurrencyService.Cached.{IsCurrent, convert_to_base_currency-agrees}
use orgfin_diploma.CurrencyService.Conversion.{IsNearest, get_all_rates_for_date-IsNearest}
use orgfin_diploma.Exec.{◌>>=◌, ok}
use orgfin_diploma.Calendar.{day_of}
use orgfin_diploma.CurrencyService.{convert_to_base_currency, convert_amount, Service}
use orgfin_diploma.Models.{Db, ExchangeRates, empty_db}
use orgfin_diploma.Repositories.ExchangeRates
use orgfin_diploma.Prelude.{ℕ, [], ℤ, ◌∷◌, ◌≡◌, pos, ◌/◌, false, ◌*◌, refl, negsuc, true}

-- Amounts that the source's rate divides.
abbrev rescale : ℤ → ℕ → ℕ → ℤ
rescale (pos n) source target = pos (n * target / source)
rescale (negsuc n) source target = negsuc n

abbrev pub bank : Service
bank = record {
  decimals = record { rescale = rescale; quotient = λ a b. pos (a / b); one = pos 1 };
  ties = λ a b. true;
}

abbrev pub january : ExchangeRates
january = record { actual_date = 719470; rates = ("EUR", 2) ∷ ("USD", 1) ∷ []; is_deleted = false }

abbrev pub market : Db
market = record empty_db { exchange_rates = january ∷ [] }

get_all_rates_for_date-IsNearest_example :
    let (r, _, s') = ExchangeRates.get_all_rates_for_date bank.ties 719471 [] market in
    (s' ≡ market) × IsNearest 719471 market.exchange_rates r
get_all_rates_for_date-IsNearest_example = get_all_rates_for_date-IsNearest bank.ties 719471 market

to_euro :
    (convert_to_base_currency bank (pos 30) "USD" "EUR" (day_of 259200000000) [] [] market).0
    ≡ ok (pos 60, (719471, january) ∷ [])
unfolding convert_to_base_currency ExchangeRates.get_all_rates_for_date day_of ◌>>=◌
to_euro = refl

convert_to_base_currency-agrees_example :
    ((convert_amount bank (pos 30) "USD" "EUR" 259200000000 [] market).0 ≡ ok (pos 60))
    × IsCurrent bank market ((719471, january) ∷ [])
convert_to_base_currency-agrees_example =
    convert_to_base_currency-agrees bank (pos 30) "USD" "EUR" 259200000000 [] market tt to_euro
