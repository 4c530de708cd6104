-- ===== src/CurrencyService/Converter.antt =====
-- ConvertAmount of backend/internal/services/currency/service.go as the converter of the service of
-- budgets.
use orgfin_diploma.Exec.Rules.{
  IsReadOnly, IsReadOnly-pure, IsReadOnly-query, IsReadOnly-bind, IsReadOnly-try,
  IsReadOnly-optional,
}
use orgfin_diploma.Calendar.{day_of}
use orgfin_diploma.Repositories.ExchangeRates.{get_all_rates_for_date, RateTies, or_forward}
use orgfin_diploma.CurrencyService.Conversion.{nearest, rates_run}
use orgfin_diploma.Exec.{◌>>=◌, result_to_option, row_of, ok, try, pure}
use orgfin_diploma.BudgetService.{IsConverter}
use orgfin_diploma.Models.{ExchangeRates, Db, Time}
use orgfin_diploma.CurrencyService.{Service, convert_amount, rescaled, pair_in}
use orgfin_diploma.Prelude.{
  Option, ℤ, String, ◌≡◌, if◌then◌else◌, some, [], none, same_text, Bool-cases, refl, inl, inr, ℕ,
}

found_again : (o : Option ExchangeRates) → result_to_option (row_of o) ≡ o
found_again none = refl
found_again (some r) = refl

-- The value of a conversion, by the nearest rates.
unfoldable pub converted : Service → Db → ℤ → String → String → Time → ℤ
converted svc s amount from to date =
    if same_text from to
    then amount
    else rescaled svc.decimals amount
        (pair_in from to (nearest svc.ties (day_of date) s.exchange_rates))

pub convert_run :
    (svc : Service) (s : Db) (amount : ℤ) (from to : String) (date : Time)
    → convert_amount svc amount from to date [] s
      ≡ (ok (converted svc s amount from to date), [], s)
unfolding convert_amount converted ◌>>=◌
convert_run svc s amount from to date = elim (Bool-cases (same_text from to)) [
  | inl e ↦ rw e refl
  | inr e ↦ rw e (
      rw
        (
          rates_run svc.ties (day_of date) s,
          found_again (nearest svc.ties (day_of date) s.exchange_rates),
        )
        refl)
]

-- ConvertAmount is a converter as the service of budgets relies on it.
unfoldable pub convert_amount-IsConverter : (svc : Service) → IsConverter (convert_amount svc)
unfolding converted
convert_amount-IsConverter svc = record {
  value = converted svc;
  answers = convert_run svc;
  unmoved = λ s bs amount from to date. refl;
}

or_forward_same :
    (ties : RateTies) (date : ℕ) (o : Option ExchangeRates) → IsReadOnly (or_forward ties date o)
or_forward_same ties date (some r) = IsReadOnly-pure r
or_forward_same ties date none = IsReadOnly-query _

rates_same : (ties : RateTies) (date : ℕ) → IsReadOnly (get_all_rates_for_date ties date)
unfolding get_all_rates_for_date
rates_same ties date =
    IsReadOnly-bind _ _ (IsReadOnly-optional _ (IsReadOnly-query _)) (or_forward_same ties date)

-- A conversion writes nothing.
pub IsReadOnly-convert_amount :
    (svc : Service) (amount : ℤ) (from to : String) (date : Time)
    → IsReadOnly (convert_amount svc amount from to date)
unfolding convert_amount
IsReadOnly-convert_amount svc amount from to date = elim (Bool-cases (same_text from to)) [
  | inl e ↦ rw e (IsReadOnly-pure amount)
  | inr e ↦ rw e (
      IsReadOnly-bind (try (get_all_rates_for_date svc.ties (day_of date)))
        (λ rates. pure (rescaled svc.decimals amount (pair_in from to rates)))
        (IsReadOnly-try _ (rates_same svc.ties (day_of date))) (λ rates. IsReadOnly-pure _))
]
