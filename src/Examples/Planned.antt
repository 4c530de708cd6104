-- ===== src/Examples/Planned.antt =====
-- The results on planned transactions, each at a transaction of every other day, five times, from
-- 11 January 1970.
use orgfin_diploma.Calendar.{day_of, time_of}
use orgfin_diploma.Prelude.{
  ℕ, ◌+◌, ◌*◌, ◌≤◌, ◌<◌, ◌≡◌, ◌↔◌, refl, map, All, length, contains, String, true, false, Option,
  none, some, [], ◌∷◌, pos,
}
use orgfin_diploma.Models.{Time}
use orgfin_diploma.PlannedTransactions.{
  RecurrenceRule, PlannedTransaction, generate_occurrences, reached, normalize_date, effective_end,
  planned_dates, rule_dates, occurrence_dates, occurrence_date_of, next_date, make_occurrence,
}
use orgfin_diploma.PlannedTransactions.Within.{generate_occurrences-within}
use orgfin_diploma.PlannedTransactions.Daily.{daily_rule, step_of, generate_occurrences-daily}

abbrev at_day : ℕ → Time
at_day n = n * 86400000000

abbrev rent : PlannedTransaction
rent = record {
  id = 1;
  currency_id = 1;
  amount = pos 40;
  label = "rent";
  is_income = false;
  planned_date = at_day 10 + 5;
  is_recurring = true;
  recurrence_rule = some "every other day";
  is_active = true;
}

abbrev parse : String → Option RecurrenceRule
parse text = some (daily_rule 2 none (some 5) none)

rent_dates :
    map (λ o. o.occurrence_date) (generate_occurrences parse rent (at_day 11) (at_day 15))
    ≡ at_day 12 ∷ at_day 14 ∷ []
unfolding generate_occurrences planned_dates rule_dates occurrence_dates occurrence_date_of
    next_date effective_end normalize_date make_occurrence day_of time_of
rent_dates = refl

generate_occurrences-within_example :
    All
      (λ o. (at_day 11 ≤ o.occurrence_date) × (o.occurrence_date ≤ at_day 15))
      (generate_occurrences parse rent (at_day 11) (at_day 15))
    × (length (generate_occurrences parse rent (at_day 11) (at_day 15)) ≤ 1000)
generate_occurrences-within_example = generate_occurrences-within parse rent (at_day 11) (at_day 15)

generate_occurrences-daily_example :
    (contains
        (at_day 12)
        (map (λ o. o.occurrence_date) (generate_occurrences parse rent (at_day 11) (at_day 15)))
      ≡ true)
    ↔ ((k : ℕ) × (k < 1000)
        × (reached (some 5) (0 + k) ≡ false)
        × (at_day 12 ≡ normalize_date (at_day 10 + 5) + k * step_of 2)
        × (at_day 11 ≤ at_day 12)
        × (at_day 12 ≤ effective_end none (at_day 15)))
generate_occurrences-daily_example =
    generate_occurrences-daily parse rent "every other day" 2 none (some 5) none (at_day 11)
      (at_day 15) (at_day 12) refl refl refl
