-- ===== src/PlannedTransactions/Within.antt =====
-- The bounds of the occurrences of backend/internal/services/planned_transactions/occurrences.go.
use orgfin_diploma.Prelude.{
  ℕ, zero, suc, ◌≤◌, ◌≡◌, Bool, true, false, ◌||◌, ◌&&◌, Option, none, some, List, [], ◌∷◌, map,
  String, ltb, leb, All, length, arith, Bool-cases, inl, inr, if◌then◌else◌, All-map_proof,
}
use orgfin_diploma.Models.{Time}
use orgfin_diploma.PlannedTransactions.{
  RecurrenceRule, PlannedTransaction, make_occurrence, normalize_date, occurrence_date_of,
  next_date, reached, interval_of, keep_from, on_next, occurrence_dates, effective_end, single_date,
  rule_dates, planned_dates, generate_occurrences,
}

abbrev IsBetween : Time → Time → Time → Type 0
IsBetween start end d = (start ≤ d) × (d ≤ end)

-- Dates in the range, and at most a number of them.
abbrev AreBounded : ℕ → Time → Time → List Time → Type 0
AreBounded n start end ds = All (IsBetween start end) ds × (length ds ≤ n)

stopped_not : (end d : Time) (b : Bool) → (ltb end d || b) ≡ false → d ≤ end
stopped_not end d b h = ground arith

keep_from_bounded :
    (n : ℕ) (start end d : Time) (rest : List Time)
    → d ≤ end
    → AreBounded n start end rest
    → AreBounded (suc n) start end (keep_from start d rest)
keep_from_bounded n start end d rest le (h, few) = elim (Bool-cases (ltb d start)) [
  | inl e ↦ rw e (h, omega arith)
  | inr e ↦ rw e (((from d e, le), h), omega arith)
]
  where
    from : (d : Time) → ltb d start ≡ false → start ≤ d
    from d e = ground arith

next_bounded :
    (n : ℕ) (start end : Time) (later : Option Time) (rest : Time → List Time)
    → ((t : Time) → AreBounded n start end (rest t))
    → AreBounded n start end (on_next later rest)
next_bounded n start end none rest h = (tt, omega arith)
next_bounded n start end (some t) rest h = h t

dates_bounded :
    (rule : RecurrenceRule) (start end : Time) (n : ℕ) (current : Time) (total : ℕ)
    → AreBounded n start end (occurrence_dates rule start end n current total)
unfolding occurrence_dates
dates_bounded rule start end zero current total = (tt, omega arith)
dates_bounded rule start end (suc n) current total =
    elim (Bool-cases (
      ltb end (occurrence_date_of rule.frequency rule.day_of_month current)
      || reached rule.count total)) [
        | inl e ↦ rw e (tt, omega arith)
        | inr e ↦ rw e (
            keep_from_bounded n start end
              (occurrence_date_of rule.frequency rule.day_of_month current) _
              (stopped_not end _ _ e)
              (next_bounded n start end (next_date rule.frequency (interval_of rule) current) _
                (λ later. dates_bounded rule start end n later (suc total))))
      ]

single_bounded : (start end d : Time) → AreBounded 1000 start end (single_date start end d)
unfolding single_date
single_bounded start end d = elim (Bool-cases (leb start d && leb d end)) [
  | inl e ↦ rw e ((between d e, tt), omega arith)
  | inr e ↦ rw e (tt, omega arith)
]
  where
    between : (d : Time) → (leb start d && leb d end) ≡ true → IsBetween start end d
    between d e = ground arith

effective_le : (rule_end : Option Time) (end : Time) → effective_end rule_end end ≤ end
unfolding effective_end
effective_le none end = omega arith
effective_le (some t) end = earlier (normalize_date t)
  where
    earlier : (r : Time) → (if ltb r end then r else end) ≤ end
    earlier r = ground arith

bounded_le :
    (n : ℕ) (start end end' : Time) (ds : List Time)
    → end ≤ end'
    → AreBounded n start end ds
    → AreBounded n start end' ds
bounded_le n start end end' ds le (h, few) =
    (All-map_proof (λ d between. (between.0, later d between.1)) ds h, few)
  where
    later : (d : Time) → d ≤ end → d ≤ end'
    later d k = omega arith

rule_bounded :
    (rule : Option RecurrenceRule) (date start end : Time)
    → AreBounded 1000 start end (rule_dates rule date start end)
unfolding rule_dates
rule_bounded none date start end = (tt, omega arith)
rule_bounded (some rule) date start end =
    bounded_le 1000 start (effective_end rule.end_date end) end _ (effective_le rule.end_date end)
      (dates_bounded rule start (effective_end rule.end_date end) 1000 (normalize_date date) 0)

planned_bounded :
    (parse : String → Option RecurrenceRule) (recurring : Bool) (text : Option String)
    (date start end : Time)
    → AreBounded 1000 start end (planned_dates parse recurring text date start end)
unfolding planned_dates
planned_bounded parse false text date start end = single_bounded start end (normalize_date date)
planned_bounded parse true none date start end = single_bounded start end (normalize_date date)
planned_bounded parse true (some text) date start end = rule_bounded (parse text) date start end

made_bounded :
    (n : ℕ) (tx : PlannedTransaction) (start end : Time) (ds : List Time)
    → AreBounded n start end ds
    → All (λ o. IsBetween start end o.occurrence_date) (map (make_occurrence tx) ds)
      × (length (map (make_occurrence tx) ds) ≤ n)
unfolding make_occurrence
made_bounded n tx start end [] h = h
made_bounded n tx start end (d ∷ ds) ((between, h), few) =
    let rest = made_bounded (length ds) tx start end ds (h, omega arith) in
    ((between, rest.0), omega arith)

-- Whatever the rule, the frequency and the dates: each occurrence of a planned transaction lies in the
-- range that was asked for, both ends included, and there are at most a thousand.
pub generate_occurrences-within :
    (parse : String → Option RecurrenceRule) (tx : PlannedTransaction) (start end : Time)
    → All
        (λ o. (start ≤ o.occurrence_date) × (o.occurrence_date ≤ end))
        (generate_occurrences parse tx start end)
      × (length (generate_occurrences parse tx start end) ≤ 1000)
unfolding generate_occurrences
generate_occurrences-within parse tx start end =
    made_bounded 1000 tx start end _
      (planned_bounded parse tx.is_recurring tx.recurrence_rule tx.planned_date start end)
