-- ===== src/PlannedTransactions/Daily.antt =====
-- The dates of a daily rule, after backend/internal/services/planned_transactions/occurrences.go.
use orgfin_diploma.Prelude.{
  ℕ, zero, suc, ◌+◌, ◌*◌, ◌≤◌, ◌<◌, ◌≡◌, ◌↔◌, refl, sym, ap, ◌∙◌, map, String, Bool, true, false,
  ◌⊎◌, subst, ◌||◌, Option, none, some, List, [], ◌∷◌, ltb, contains, arith, Bool-cases, inl, inr,
  if◌then◌else◌, ◌∙◌,
}
use orgfin_diploma.Models.{Time}
use orgfin_diploma.PlannedTransactions.{
  Frequency, RecurrenceRule, occurrence_date_of, next_date, reached, keep_from, occurrence_dates,
  make_occurrence, generate_occurrences, PlannedTransaction, planned_dates, rule_dates,
  normalize_date, effective_end,
}

-- A rule that runs every so many days.
abbrev pub daily_rule : ℕ → Option Time → Option ℕ → Option ℕ → RecurrenceRule
daily_rule interval end_date count day = record {
  frequency = Frequency.daily;
  interval = interval;
  end_date = end_date;
  count = count;
  day_of_month = day;
}

-- The microseconds between two dates of the rule; an interval of 0 counts as 1.
abbrev pub step_of : ℕ → ℕ
step_of interval = (if ltb interval 1 then 1 else interval) * 86400000000

counted : (t k : ℕ) → suc t + k ≡ t + suc k
counted t k = omega arith

no_more : (t : ℕ) → t ≡ t + 0
no_more t = omega arith

-- A list from whose front a date may be left out.
in_kept :
    (start c d : Time) (rest : List Time)
    → contains d (keep_from start c rest) ≡ true
    → ((d ≡ c) × (start ≤ c)) ⊎ (contains d rest ≡ true)
in_kept start c d rest h = elim (Bool-cases (ltb c start)) [
  | inl e ↦ inr (rw e at h)
  | inr e ↦ front (rw e at h)
]
  where
    front : contains d (c ∷ rest) ≡ true → ((d ≡ c) × (start ≤ c)) ⊎ (contains d rest ≡ true)
    front k = ground arith

kept_rest :
    (start c d : Time) (rest : List Time)
    → contains d rest ≡ true
    → contains d (keep_from start c rest) ≡ true
kept_rest start c d rest h = ground arith

kept_front :
    (start c d : Time) (rest : List Time)
    → d ≡ c
    → start ≤ c
    → contains d (keep_from start c rest) ≡ true
kept_front start c d rest same h = ground arith

-- The tests that end the loop.
no_stop : (a b : ℕ) (r : Bool) → (ltb a b || r) ≡ false → (b ≤ a) × (r ≡ false)
no_stop a b r h = ground arith

stop_not : (a b : ℕ) (r : Bool) → b ≤ a → r ≡ false → (ltb a b || r) ≡ false
stop_not a b r h k = ground arith

reached_before :
    (count : Option ℕ) (t k : ℕ) → reached count (t + k) ≡ false → reached count t ≡ false
reached_before none t k h = refl
reached_before (some n) t k h = ground arith

dates_made :
    (tx : PlannedTransaction) (ds : List Time)
    → map (λ o. o.occurrence_date) (map (make_occurrence tx) ds) ≡ ds
unfolding make_occurrence
dates_made tx [] = refl
dates_made tx (d ∷ ds) = ap (λ xs. d ∷ xs) (dates_made tx ds)

module _ (interval : ℕ) (end_date : Option Time) (count day : Option ℕ) (start end : Time) where
  abbrev dates : ℕ → Time → ℕ → List Time
  dates = occurrence_dates (daily_rule interval end_date count day) start end

  dates_stop :
      (n : ℕ) (c : Time) (t : ℕ) → (ltb end c || reached count t) ≡ true → dates (suc n) c t ≡ []
  unfolding occurrence_dates occurrence_date_of
  dates_stop n c t e = rw e refl

  dates_go :
      (n : ℕ) (c : Time) (t : ℕ)
      → (ltb end c || reached count t) ≡ false
      → dates (suc n) c t ≡ keep_from start c (dates n (c + step_of interval) (suc t))
  unfolding occurrence_dates occurrence_date_of next_date
  dates_go n c t e = rw e refl

  -- A date that the rule meets within so many rounds.
  abbrev pub IsMet : ℕ → Time → ℕ → Time → Type 0
  IsMet n c t d =
      (k : ℕ) × (k < n)
      × (reached count (t + k) ≡ false)
      × (d ≡ c + k * step_of interval)
      × (start ≤ d)
      × (d ≤ end)

  steps :
      (c : Time) (k : ℕ)
      → c + step_of interval + k * step_of interval ≡ c + suc k * step_of interval
  steps c k = omega arith

  meet_later :
      (n : ℕ) (c : Time) (t : ℕ) (d : Time)
      → IsMet n (c + step_of interval) (suc t) d
      → IsMet (suc n) c t d
  meet_later n c t d (k, lt, more, at, from, to) = (
    suc k,
    omega arith,
    subst (λ m. reached count m ≡ false) (counted t k) more,
    at ∙ steps c k,
    from,
    to,
  )

  -- Each date of the loop is met.
  dates_sound :
      (n : ℕ) (c : Time) (t : ℕ) (d : Time) → contains d (dates n c t) ≡ true → IsMet n c t d
  unfolding occurrence_dates
  dates_sound zero c t d h = cc
  dates_sound (suc n) c t d h = elim (Bool-cases (ltb end c || reached count t)) [
    | inl e ↦ absurd (nothing (subst (λ ds. contains d ds ≡ true) (dates_stop n c t e) h))
    | inr e ↦
        step (no_stop end c (reached count t) e)
          (in_kept start c d _ (subst (λ ds. contains d ds ≡ true) (dates_go n c t e) h))
          (dates_sound n (c + step_of interval) (suc t) d)
  ]
    where
      nothing : false ≡ true → ⊥
      nothing k = cc

      step :
          (c ≤ end) × (reached count t ≡ false)
          → ((d ≡ c) × (start ≤ c)) ⊎ (contains d (dates n (c + step_of interval) (suc t)) ≡ true)
          → (contains d (dates n (c + step_of interval) (suc t)) ≡ true
              → IsMet n (c + step_of interval) (suc t) d)
          → IsMet (suc n) c t d
      step (le, more) (inl (same, from)) later = (
        0,
        omega arith,
        subst (λ m. reached count m ≡ false) (no_more t) more,
        omega arith,
        omega arith,
        omega arith,
      )
      step (le, more) (inr found) later = meet_later n c t d (later found)

  -- Each date that is met is one of the loop's.
  dates_complete :
      (n : ℕ) (c : Time) (t : ℕ) (d : Time) (k : ℕ)
      → k < n
      → reached count (t + k) ≡ false
      → d ≡ c + k * step_of interval
      → start ≤ d
      → d ≤ end
      → contains d (dates n c t) ≡ true
  dates_complete zero c t d k lt more at from to = absurd (none_below lt)
    where
      none_below : k < 0 → ⊥
      none_below h = omega arith
  dates_complete (suc n) c t d zero lt more at from to =
      subst (λ ds. contains d ds ≡ true)
        (sym (
          dates_go n c t
            (stop_not end c (reached count t) (omega arith) (reached_before count t 0 more))))
        (kept_front start c d _ (omega arith) (omega arith))
  dates_complete (suc n) c t d (suc k) lt more at from to =
      subst (λ ds. contains d ds ≡ true)
        (sym (
          dates_go n c t
            (stop_not end c (reached count t) (omega arith) (reached_before count t (suc k) more))))
        (kept_rest start c d _ (
          dates_complete n (c + step_of interval) (suc t) d k (omega arith)
            (subst (λ m. reached count m ≡ false) (sym (counted t k)) more) (at ∙ sym (steps c k))
            from to))

-- The dates of a transaction with a daily rule.
planned_daily :
    (parse : String → Option RecurrenceRule) (recurring : Bool) (rule : Option String)
    (date start end : Time) {text : String} {interval : ℕ} {end_date : Option Time}
    {count day : Option ℕ}
    → recurring ≡ true
    → rule ≡ some text
    → parse text ≡ some (daily_rule interval end_date count day)
    → planned_dates parse recurring rule date start end
      ≡ dates interval end_date count day start
          (effective_end end_date end)
          1000
          (normalize_date date)
          0
unfolding planned_dates rule_dates
planned_daily parse recurring rule date start end recurs ruled parsed =
    rw (recurs, ruled, parsed) refl

-- Whether a date is one of a daily rule's occurrences: exactly if it is the planned day or a whole
-- number of intervals later, in the range, not after the rule's own end, not past the rule's count,
-- and within the first thousand dates of the rule, whether these are in the range or not.
pub generate_occurrences-daily :
    (parse : String → Option RecurrenceRule) (tx : PlannedTransaction) (text : String)
    (interval : ℕ) (end_date : Option Time) (count day : Option ℕ) (start end d : Time)
    → tx.is_recurring ≡ true
    → tx.recurrence_rule ≡ some text
    → parse text ≡ some (daily_rule interval end_date count day)
    → (contains d (map (λ o. o.occurrence_date) (generate_occurrences parse tx start end)) ≡ true)
      ↔ ((k : ℕ) × (k < 1000)
          × (reached count (0 + k) ≡ false)
          × (d ≡ normalize_date tx.planned_date + k * step_of interval)
          × (start ≤ d)
          × (d ≤ effective_end end_date end))
unfolding generate_occurrences
generate_occurrences-daily parse tx text interval end_date count day start end d recurs ruled
      parsed =
    let until = effective_end end_date end in
    let first = normalize_date tx.planned_date in
    let same =
      dates_made tx
        (planned_dates parse tx.is_recurring tx.recurrence_rule tx.planned_date start end)
      ∙ planned_daily parse tx.is_recurring tx.recurrence_rule tx.planned_date start end recurs
          ruled parsed in
    (
      λ h.
          dates_sound interval end_date count day start until 1000 first 0 d
            (subst (λ ds. contains d ds ≡ true) same h),
      λ (k, lt, more, at, from, to).
          subst (λ ds. contains d ds ≡ true) (sym same)
            (dates_complete interval end_date count day start until 1000 first 0 d k lt more at from
              to),
    )
