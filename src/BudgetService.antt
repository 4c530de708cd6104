-- ===== src/BudgetService.antt =====
-- backend/internal/services/budgets/service.go and the parts of backend/internal/dateutil that it
-- uses. Recalc is recalculateBudget and RecalculateCollectedAmounts, Editing has Create, Update,
-- Delete and Archive, Daily has DailyProcessing, and Csv the list of categories. The converter of
-- currencies is an interface of the service; time.Parse and strings.ToUpper are parameters, and so is
-- the order of budgets that a query leaves open.
pub mod Csv
pub mod Recalc
pub mod Editing
pub mod Daily
use orgfin_diploma.Repositories.Budgets.{Ties}
use orgfin_diploma.Models.{Time, Db, Budget}
use orgfin_diploma.Exec.{Error, Exec, Result, err, ok}
use orgfin_diploma.Prelude.{ℕ, List, String, Option, ℤ, ◌∷◌, Bool, none, some, [], ◌≡◌}

-- ConvertAmount of an amount, from a code, to a code, on a date.
abbrev pub CurrencyConverter : Type 0
CurrencyConverter = ℤ → String → String → Time → Exec ℤ

pub record Service : Type 0 where
  pub convert_amount : CurrencyConverter
  -- time.Parse of a layout and a text
  pub parse_layout : String → String → Option Time
  pub to_upper : String → String
  pub ties : Ties

-- The structs CreateParams and UpdateParams, which have the same fields.
pub record BudgetParams : Type 0 where
  pub name : String
  pub currency_id : ℕ
  pub target_amount : ℤ
  pub period : String
  pub repeat : Bool
  pub start_date : String
  pub end_date : String
  pub categories : List ℤ
  pub comment : Option String

-- dateFormats
abbrev pub date_formats : List String
date_formats =
    "2006-01-02" ∷ "2006-01-02T15:04:05" ∷ "2006-01-02T15:04" ∷ "2006-01-02T15:04:05Z07:00" ∷ []

abbrev pub or_else : Option Time → Option Time → Option Time
or_else none later = later
or_else (some t) later = some t

-- ParseDate: the first layout that fits.
unfoldable pub parse_date_with :
    (String → String → Option Time) → List String → String → Option Time
parse_date_with parse [] s = none
parse_date_with parse (layout ∷ layouts) s =
    or_else (parse layout s) (parse_date_with parse layouts s)

unfoldable pub parse_date : Service → String → Option Time
unfolding parse_date_with
parse_date svc s = parse_date_with svc.parse_layout date_formats s

abbrev pub parsed_or : Error → Option Time → Result Time
parsed_or e none = err e
parsed_or e (some t) = ok t

-- What the service relies on of a converter: without a fault it answers, by a value that the rows of
-- budgets do not matter for, and changes nothing.
pub record IsConverter (convert : CurrencyConverter) : Type 0 where
  pub value : Db → ℤ → String → String → Time → ℤ
  pub answers :
      (s : Db) (a : ℤ) (from to : String) (d : Time)
      → convert a from to d [] s ≡ (ok (value s a from to d), [], s)
  pub unmoved :
      (s : Db) (bs : List Budget) (a : ℤ) (from to : String) (d : Time)
      → value (record s { budgets = bs }) a from to d ≡ value s a from to d
