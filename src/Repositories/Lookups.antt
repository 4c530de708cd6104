-- ===== src/Repositories/Lookups.antt =====
-- The tables that the services only look an id up in (category.go, currency.go, account_type.go).
use orgfin_diploma.Models.{Currency}
use orgfin_diploma.Prelude.{ℕ, if◌then◌else◌, contains, List, Option, find_first, ◌==◌}
use orgfin_diploma.Exec.{Error, ok, err, Exec, query, row_of}

unfoldable pub get_category : ℕ → Exec ℕ
get_category i = query (λ s. if contains i s.categories then ok i else err Error.no_rows)

abbrev pub find_currency : ℕ → List Currency → Option Currency
find_currency i = find_first (λ c. c.id == i)

unfoldable pub get_currency : ℕ → Exec Currency
get_currency i = query (λ s. row_of (find_currency i s.currencies))

unfoldable pub get_account_type : ℕ → Exec ℕ
get_account_type i = query (λ s. if contains i s.account_types then ok i else err Error.no_rows)
