-- ===== src/CurrencyService/Cached.antt =====
-- ConvertToBaseCurrency of backend/internal/services/currency/rate_cache.go, with its cache of rates,
-- against ConvertAmount, which has none.
use orgfin_diploma.Calendar.{day_of}
use orgfin_diploma.CurrencyService.Converter.{converted, convert_run}
use orgfin_diploma.CurrencyService.Conversion.{nearest, rates_run}
use orgfin_diploma.Models.{Db, ExchangeRates, Time}
use orgfin_diploma.CurrencyService.{
  Service, RateCache, cached, cached_or_read, strict_pair, rate_pair, strict_pair_in, rate_of,
  rescaled, pair_in, convert_to_base_currency, convert_amount, get_rates_for_date,
}
use orgfin_diploma.Exec.{◌>>=◌, ok, Result, err, Error, Exec, lift, continue, rename_no_rows, pure}
use orgfin_diploma.Prelude.{
  ℕ, All, Option, ◌≡◌, [], some, none, refl, String, ap, ◌∷◌, sym, List, Bool-cases, ◌==◌, inl,
  subst, inr, ==→eq, ◌∙◌, ℤ, same_text, false,
}

-- Every cached row is what a lookup finds now.
abbrev pub IsCurrent : Service → Db → RateCache → Type 0
IsCurrent svc s cache = All (λ e. nearest svc.ties e.0 s.exchange_rates ≡ some e.1) cache

cached_current :
    (svc : Service) (s : Db) (date : ℕ) (cache : RateCache) {r : ExchangeRates}
    → IsCurrent svc s cache
    → cached date cache ≡ some r
    → nearest svc.ties date s.exchange_rates ≡ some r
cached_current svc s date [] h e = cc
cached_current svc s date ((d, x) ∷ cache) {r} h e = elim (Bool-cases (d == date)) [
  | inl hit ↦
      let same : x ≡ r = cc (rw hit at e) in
      subst (λ n. nearest svc.ties n s.exchange_rates ≡ some r) (==→eq d date hit)
        (h.0 ∙ ap some same)
  | inr miss ↦ cached_current svc s date cache h.1 (rw miss at e)
]

-- The cache after a lookup that found a row.
abbrev added_to : ℕ → ExchangeRates → RateCache → Option ExchangeRates → RateCache
added_to date r cache none = (date, r) ∷ cache
added_to date r cache (some x) = cache

abbrev answer :
    ℕ → RateCache → Option ExchangeRates → Option ExchangeRates → Result (ExchangeRates × RateCache)
answer date cache found none = err Error.no_rows
answer date cache found (some r) = ok (r, added_to date r cache found)

lookup_run :
    (svc : Service) (s : Db) (date : ℕ) (cache : RateCache) (found : Option ExchangeRates)
    (o : Option ExchangeRates)
    → nearest svc.ties date s.exchange_rates ≡ o
    → ((r : ExchangeRates) → found ≡ some r → o ≡ some r)
    → cached_or_read svc date cache found [] s ≡ (answer date cache found o, [], s)
unfolding ◌>>=◌
lookup_run svc s date cache (some x) none e h = cc (h x refl)
lookup_run svc s date cache (some x) (some r) e h =
    let same : r ≡ x = cc (h x refl) in ap (λ y. (ok (y, cache), [], s)) (sym same)
lookup_run svc s date cache none none e h = rw (rates_run svc.ties date s, e) refl
lookup_run svc s date cache none (some r) e h = rw (rates_run svc.ties date s, e) refl

added-IsCurrent :
    (svc : Service) (s : Db) (date : ℕ) (cache : RateCache) (found : Option ExchangeRates)
    {r : ExchangeRates}
    → IsCurrent svc s cache
    → nearest svc.ties date s.exchange_rates ≡ some r
    → IsCurrent svc s (added_to date r cache found)
added-IsCurrent svc s date cache none h e = (e, h)
added-IsCurrent svc s date cache (some x) h e = h

-- Two rates that a strict test accepts are the pair that ConvertAmount uses.
strict_agrees :
    (a b : Option ℕ) {pair : ℕ × ℕ} → strict_pair a b ≡ ok pair → rate_pair a b ≡ some pair
strict_agrees none b h = cc
strict_agrees (some x) none h = cc
strict_agrees (some x) (some y) {pair} h = elim (Bool-cases (x == 0)) [
  | inl e ↦ cc (rw e at h)
  | inr e ↦ elim (Bool-cases (y == 0)) [
    | inl f ↦ cc (rw (e, f) at h)
    | inr f ↦
        let same : ◌≡◌ {A = Result (ℕ × ℕ)} (ok (x, y)) (ok pair) = rw (e, f) at h in rw e (cc same)
  ]
]

strict_in_agrees :
    (from to : String) (rates : List (String × ℕ)) {pair : ℕ × ℕ}
    → strict_pair_in from to rates ≡ ok pair
    → rate_pair (rate_of from rates) (rate_of to rates) ≡ some pair
strict_in_agrees from to [] h = cc
strict_in_agrees from to (r ∷ rates) h =
    strict_agrees (rate_of from (r ∷ rates)) (rate_of to (r ∷ rates)) h

-- The rest of ConvertToBaseCurrency, by what the lookup answers.
module _ (svc : Service) (s : Db) (amount : ℤ) (from to : String) where
  rest_of : Result (ExchangeRates × RateCache) → Exec (ℤ × RateCache)
  rest_of found = do
    (rates, cache') ← lift (rename_no_rows Error.no_exchange_rates found)
    (source, target) ← lift (strict_pair_in from to rates.rates)
    pure (svc.decimals.rescale amount source target, cache')

  rest_agrees :
      (date : ℕ) (cache : RateCache) (found o : Option ExchangeRates) {v : ℤ} {cache' : RateCache}
      → (rest_of (answer date cache found o) [] s).0 ≡ ok (v, cache')
      → (v ≡ rescaled svc.decimals amount (pair_in from to o))
        × ((r : ExchangeRates) × (o ≡ some r) × (cache' ≡ added_to date r cache found))
  unfolding rest_of ◌>>=◌
  rest_agrees date cache found none h = cc
  rest_agrees date cache found (some r) {v} {cache'} h = go (strict_pair_in from to r.rates) refl h
    where
      go :
          (p : Result (ℕ × ℕ))
          → strict_pair_in from to r.rates ≡ p
          → (continue {B = ℤ × RateCache} p
              (λ q. pure (svc.decimals.rescale amount q.0 q.1, added_to date r cache found))
              []
              s).0
            ≡ ok (v, cache')
          → (v ≡ rescaled svc.decimals amount (pair_in from to (some r)))
            × ((x : ExchangeRates) × (some r ≡ some x) × (cache' ≡ added_to date x cache found))
      go (err e) f k = cc
      go (ok (a, b)) f k = (
        cc k ∙ ap (rescaled svc.decimals amount) (sym (strict_in_agrees from to r.rates f)),
        (r, refl, cc k),
      )

-- ConvertToBaseCurrency between different currencies, by what its lookup answers.
base_run :
    (svc : Service) (s : Db) (amount : ℤ) (from to : String) (date : ℕ) (cache : RateCache)
    → IsCurrent svc s cache
    → same_text from to ≡ false
    → (convert_to_base_currency svc amount from to date cache [] s).0
      ≡ (rest_of svc s amount from to
          (answer date cache (cached date cache) (nearest svc.ties date s.exchange_rates))
          []
          s).0
unfolding convert_to_base_currency get_rates_for_date rest_of ◌>>=◌
base_run svc s amount from to date cache current e =
    rw
      (
        e,
        lookup_run svc s date cache (cached date cache) (nearest svc.ties date s.exchange_rates)
            refl (λ r. cached_current svc s date cache current),
      )
      refl

different_agrees :
    (svc : Service) (s : Db) (amount : ℤ) (from to : String) (date : ℕ) (cache : RateCache) {v : ℤ}
    {cache' : RateCache}
    → IsCurrent svc s cache
    → same_text from to ≡ false
    → (convert_to_base_currency svc amount from to date cache [] s).0 ≡ ok (v, cache')
    → (rescaled svc.decimals amount (pair_in from to (nearest svc.ties date s.exchange_rates)) ≡ v)
      × IsCurrent svc s cache'
different_agrees svc s amount from to date cache current e h =
    let (same, (r, found, grown)) =
      rest_agrees svc s amount from to date cache (cached date cache)
        (nearest svc.ties date s.exchange_rates)
        (sym (base_run svc s amount from to date cache current e) ∙ h) in
    (
      sym same,
      subst (IsCurrent svc s) (sym grown)
          (added-IsCurrent svc s date cache (cached date cache) current found),
    )

-- A cache whose rows are what a lookup finds now is not seen: where ConvertToBaseCurrency answers an
-- amount, ConvertAmount answers the same one for a time of that day, and the cache afterwards is
-- again one whose rows are what a lookup finds.
pub convert_to_base_currency-agrees :
    (svc : Service) (amount : ℤ) (from to : String) (date : Time) (cache : RateCache) (s : Db)
    {v : ℤ} {cache' : RateCache}
    → IsCurrent svc s cache
    → (convert_to_base_currency svc amount from to (day_of date) cache [] s).0 ≡ ok (v, cache')
    → ((convert_amount svc amount from to date [] s).0 ≡ ok v) × IsCurrent svc s cache'
unfolding convert_to_base_currency converted ◌>>=◌
convert_to_base_currency-agrees svc amount from to date cache s {v} {cache'} current h =
    rw (convert_run svc s amount from to date) (elim (Bool-cases (same_text from to)) [
      | inl e ↦ rw e (
          let k : ◌≡◌ {A = Result (ℤ × RateCache)} (ok (amount, cache)) (ok (v, cache')) =
            rw e at h in
          (cc k, subst (IsCurrent svc s) (cc k) current))
      | inr e ↦
          let (same, kept) =
            different_agrees svc s amount from to (day_of date) cache current e h in
          rw e (ap ok same, kept)
    ])
