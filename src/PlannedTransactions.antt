-- ===== src/PlannedTransactions.antt =====
-- backend/internal/services/planned_transactions/occurrences.go, in UTC. Package json parses the rule
-- of a transaction and package time its end, which are a parameter; an end that does not parse is
-- none. A negative interval or count is read as 0, which the code treats alike; a negative day of the
-- month, and an interval so large that dates wrap around, are not represented.
pub mod Within
pub mod Daily
use orgfin_diploma.Prelude.{
  ℕ, zero, suc, ◌+◌, ◌-◌, ◌*◌, ℤ, Bool, true, false, not, ◌&&◌, ◌||◌, Option, none, some, List, [],
  ◌∷◌, ◌++◌, map, String, ltb, leb, if◌then◌else◌,
}
use orgfin_diploma.Models.{Time}
use orgfin_diploma.Calendar.{
  day_of, time_of, civil_from_days, days_from_civil, add_months, add_years, last_day,
}

pub data Frequency : Type 0 where
  daily weekly monthly yearly unknown : Frequency

pub record RecurrenceRule : Type 0 where
  pub frequency : Frequency
  pub interval : ℕ
  pub end_date : Option Time
  pub count : Option ℕ
  pub day_of_month : Option ℕ

pub record PlannedTransaction : Type 0 where
  pub id : ℕ
  pub currency_id : ℕ
  pub amount : ℤ
  pub label : String
  pub is_income : Bool
  pub planned_date : Time
  pub is_recurring : Bool
  pub recurrence_rule : Option String
  pub is_active : Bool

pub record Occurrence : Type 0 where
  pub planned_transaction_id : ℕ
  pub currency_id : ℕ
  pub occurrence_date : Time
  pub amount : ℤ
  pub is_income : Bool
  pub label : String
  pub is_active : Bool
  pub is_recurring : Bool

unfoldable pub make_occurrence : PlannedTransaction → Time → Occurrence
make_occurrence tx date = record {
  planned_transaction_id = tx.id;
  currency_id = tx.currency_id;
  occurrence_date = date;
  amount = tx.amount;
  is_income = tx.is_income;
  label = tx.label;
  is_active = tx.is_active;
  is_recurring = tx.is_recurring;
}

-- normalizeDate
unfoldable pub normalize_date : Time → Time
normalize_date t = time_of (day_of t)

-- adjustDayOfMonth
unfoldable pub adjust_day_of_month : Time → ℕ → Time
adjust_day_of_month t day =
    let c = civil_from_days (day_of t) in
    let last = last_day c.year c.month in
    time_of (days_from_civil c.year c.month (if ltb last day then last else day))

-- The override of the day, for a monthly rule.
unfoldable pub occurrence_date_of : Frequency → Option ℕ → Time → Time
occurrence_date_of Frequency.monthly (some day) t = adjust_day_of_month t day
occurrence_date_of Frequency.monthly none t = t
occurrence_date_of Frequency.daily day t = t
occurrence_date_of Frequency.weekly day t = t
occurrence_date_of Frequency.yearly day t = t
occurrence_date_of Frequency.unknown day t = t

-- The next occurrence; an unknown frequency has none.
unfoldable pub next_date : Frequency → ℕ → Time → Option Time
next_date Frequency.daily n t = some (t + n * 86400000000)
next_date Frequency.weekly n t = some (t + n * 7 * 86400000000)
next_date Frequency.monthly n t = some (time_of (add_months (day_of t) n))
next_date Frequency.yearly n t = some (time_of (add_years (day_of t) n))
next_date Frequency.unknown n t = none

abbrev pub reached : Option ℕ → ℕ → Bool
reached none total = false
reached (some count) total = leb count total

abbrev pub interval_of : RecurrenceRule → ℕ
interval_of rule = if ltb rule.interval 1 then 1 else rule.interval

abbrev pub keep_from : Time → Time → List Time → List Time
keep_from start date rest = if ltb date start then rest else date ∷ rest

abbrev pub on_next : Option Time → (Time → List Time) → List Time
on_next none rest = []
on_next (some t) rest = rest t

-- The rest of the loop, past the tests that end it.
abbrev pub unless : Bool → List Time → List Time
unless true rest = []
unless false rest = rest

-- The loop, whose rounds are the first number.
unfoldable pub occurrence_dates : RecurrenceRule → Time → Time → ℕ → Time → ℕ → List Time
occurrence_dates rule start end zero current total = []
occurrence_dates rule start end (suc n) current total =
    let date = occurrence_date_of rule.frequency rule.day_of_month current in
    unless (ltb end date || reached rule.count total) (
      keep_from start date (
        on_next (next_date rule.frequency (interval_of rule) current)
          (λ later. occurrence_dates rule start end n later (suc total))))

-- The earlier of the two ends.
unfoldable pub effective_end : Option Time → Time → Time
effective_end none end = end
effective_end (some rule_end) end =
    if ltb (normalize_date rule_end) end then normalize_date rule_end else end

-- Without a rule: the planned date, if it is in the range.
unfoldable pub single_date : Time → Time → Time → List Time
single_date start end date = if leb start date && leb date end then date ∷ [] else []

unfoldable pub rule_dates : Option RecurrenceRule → Time → Time → Time → List Time
rule_dates none date start end = []
rule_dates (some rule) date start end =
    occurrence_dates rule start (effective_end rule.end_date end) 1000 (normalize_date date) 0

unfoldable pub planned_dates :
    (String → Option RecurrenceRule) → Bool → Option String → Time → Time → Time → List Time
planned_dates parse false text date start end = single_date start end (normalize_date date)
planned_dates parse true none date start end = single_date start end (normalize_date date)
planned_dates parse true (some text) date start end = rule_dates (parse text) date start end

unfoldable pub generate_occurrences :
    (String → Option RecurrenceRule) → PlannedTransaction → Time → Time → List Occurrence
generate_occurrences parse tx start end =
    map (make_occurrence tx)
      (planned_dates parse tx.is_recurring tx.recurrence_rule tx.planned_date start end)

-- GenerateOccurrencesForTxs before the sort.
unfoldable pub collect_occurrences :
    (String → Option RecurrenceRule) → List PlannedTransaction → Time → Time → List Occurrence
collect_occurrences parse [] start end = []
collect_occurrences parse (tx ∷ txs) start end =
    generate_occurrences parse tx start end ++ collect_occurrences parse txs start end

-- sort.Slice, which leaves the order of equal dates open, is an argument.
unfoldable pub generate_occurrences_for_txs :
    (List Occurrence → List Occurrence)
    → (String → Option RecurrenceRule)
    → List PlannedTransaction
    → Time
    → Time
    → List Occurrence
generate_occurrences_for_txs by_date parse txs start end =
    by_date (collect_occurrences parse txs start end)
