-- ===== src/CurrencyService.antt =====
-- backend/internal/services/currency: ConvertAmount and GetExchangeRate of service.go, and the cache of
-- rates of rate_cache.go. The quotients of package decimal are parameters; a date text is its day
-- number, and a map of rates is a list of pairs.
pub mod Conversion
pub mod Cached
pub mod Converter
use orgfin_diploma.Calendar.{day_of}
use orgfin_diploma.Models.{ExchangeRates, Time}
use orgfin_diploma.Repositories.ExchangeRates.{RateTies}
use orgfin_diploma.Exec.{◌>>=◌, Result, Exec, err, pure, Error, try, no_rows_as, lift, ok}
use orgfin_diploma.Repositories.ExchangeRates
use orgfin_diploma.Prelude.{
  ℕ, List, ℤ, String, Option, none, some, if◌then◌else◌, ◌==◌, ◌∷◌, same_text, [], ◌||◌,
}

pub record Decimals : Type 0 where
  -- amount.Div(source).Mul(target)
  pub rescale : ℤ → ℕ → ℕ → ℤ
  -- target.Div(source), and the decimal 1
  pub quotient : ℕ → ℕ → ℤ
  pub one : ℤ

pub record Service : Type 0 where
  pub decimals : Decimals
  pub ties : RateTies

abbrev pub rate_of : String → List (String × ℕ) → Option ℕ
rate_of code [] = none
rate_of code ((c, r) ∷ rates) = if same_text c code then some r else rate_of code rates

-- Both rates, if the source's is not 0.
abbrev pub rate_pair : Option ℕ → Option ℕ → Option (ℕ × ℕ)
rate_pair none target = none
rate_pair (some source) none = none
rate_pair (some source) (some target) = if source == 0 then none else some (source, target)

abbrev pub pair_in : String → String → Option ExchangeRates → Option (ℕ × ℕ)
pair_in from to none = none
pair_in from to (some rates) = rate_pair (rate_of from rates.rates) (rate_of to rates.rates)

abbrev pub rescaled : Decimals → ℤ → Option (ℕ × ℕ) → ℤ
rescaled dec amount none = amount
rescaled dec amount (some (source, target)) = dec.rescale amount source target

-- An error of the lookup is logged and answered by the amount.
unfoldable pub convert_amount : Service → ℤ → String → String → Time → Exec ℤ
unfolding ◌>>=◌
convert_amount svc amount from to date = if same_text from to then pure amount else (do
  rates ← try (ExchangeRates.get_all_rates_for_date svc.ties (day_of date))
  pure (rescaled svc.decimals amount (pair_in from to rates)))

abbrev pub quotient_of : Decimals → Option (ℕ × ℕ) → ℤ
quotient_of dec none = dec.one
quotient_of dec (some (source, target)) = dec.quotient target source

unfoldable pub get_exchange_rate : Service → String → String → Time → Exec ℤ
unfolding ◌>>=◌
get_exchange_rate svc from to date = if same_text from to then pure svc.decimals.one else (do
  rates ← try (ExchangeRates.get_all_rates_for_date svc.ties (day_of date))
  pure (quotient_of svc.decimals (pair_in from to rates)))

-- The cache of one request: the rates of the dates that were asked for.
abbrev pub RateCache : Type 0
RateCache = List (ℕ × ExchangeRates)

abbrev pub cached : ℕ → RateCache → Option ExchangeRates
cached date [] = none
cached date ((d, r) ∷ cache) = if d == date then some r else cached date cache

abbrev pub cached_or_read :
    Service → ℕ → RateCache → Option ExchangeRates → Exec (ExchangeRates × RateCache)
cached_or_read svc date cache (some r) = pure (r, cache)
cached_or_read svc date cache none = do
  rates ← ExchangeRates.get_all_rates_for_date svc.ties date
  pure (rates, (date, rates) ∷ cache)

-- The answer, and the cache afterwards.
unfoldable pub get_rates_for_date : Service → ℕ → RateCache → Exec (ExchangeRates × RateCache)
unfolding ◌>>=◌
get_rates_for_date svc date cache = cached_or_read svc date cache (cached date cache)

-- Both rates, which must not be 0.
abbrev pub strict_pair : Option ℕ → Option ℕ → Result (ℕ × ℕ)
strict_pair none target = err Error.rate_missing
strict_pair (some source) none = err Error.rate_missing
strict_pair (some source) (some target) =
    if source == 0 || target == 0 then err Error.rate_missing else ok (source, target)

abbrev pub strict_pair_in : String → String → List (String × ℕ) → Result (ℕ × ℕ)
strict_pair_in from to [] = err Error.no_exchange_rates
strict_pair_in from to (r ∷ rates) = strict_pair (rate_of from (r ∷ rates)) (rate_of to (r ∷ rates))

-- ConvertToBaseCurrency: the converted amount, and the cache afterwards. A refusal does not give back
-- what the cache has gained, which costs the next call a lookup and changes no answer.
unfoldable pub convert_to_base_currency :
    Service → ℤ → String → String → ℕ → RateCache → Exec (ℤ × RateCache)
unfolding get_rates_for_date
convert_to_base_currency svc amount source base date cache =
    if same_text source base then pure (amount, cache) else (do
      (rates, cache') ← no_rows_as Error.no_exchange_rates (get_rates_for_date svc date cache)
      (from, to) ← lift (strict_pair_in source base rates.rates)
      pure (svc.decimals.rescale amount from to, cache'))
