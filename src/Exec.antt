-- ===== src/Exec.antt =====
-- A service method as a state-passing action: it reads and writes the database and may fail.
-- Every call of the database consults one entry of a schedule of faults: `true` makes the call
-- fail with an error that is not sql.ErrNoRows, before it writes anything; a schedule that has
-- run out means that nothing fails any more. What was written before an error stays written, as
-- in the source, which opens no SQL transaction. The errors are the sentinels of
-- backend/internal/services/*/errors.go.

pub mod Rules
pub mod Failing
pub mod Keeps
pub mod Answers
use orgfin_diploma.Prelude.{
  ◌≡◌, refl, ◌⊎◌, inl, inr, Bool, true, false, Option, none, some, List, [], ◌∷◌,
}
use orgfin_diploma.Models.{Db}

pub data Error : Type 0 where
  no_rows db_failure : Error
  invalid_user user_not_activated invalid_account access_denied self_transfer : Error
  transaction_not_found template_not_found nil_new_balance : Error
  account_not_found invalid_currency invalid_account_type balance_unchanged : Error
  plan_not_found same_plan invalid_plan_transition downgrade_not_allowed : Error
  already_on_free_plan invalid_entity_selection no_trial_plan : Error
  invalid_payload provider_failure : Error
  invalid_start_date invalid_end_date budget_not_found no_currency_code : Error
  recalculation_failed no_exchange_rates rate_missing : Error

pub data Result {ℓ} (A : Type ℓ) : Type ℓ where
  ok : A → Result A
  err : Error → Result A

abbrev pub Faults : Type 0
Faults = List Bool

-- A result, the rest of the schedule, and the database afterwards.
abbrev pub Outcome : Type 0 → Type 0
Outcome A = Result A × Faults × Db

abbrev pub Exec : Type 0 → Type 0
Exec A = Faults → Db → Outcome A

abbrev pub continue : {A B : Type 0} → Result A → (A → Exec B) → Exec B
continue (ok a) f fs s = f a fs s
continue (err e) f fs s = (err e, fs, s)

module _ {A : Type 0} where
  unfoldable pub pure : A → Exec A
  pure a fs s = (ok a, fs, s)

  unfoldable pub lift : Result A → Exec A
  lift r fs s = (r, fs, s)

  -- A SELECT: it may fail, and changes nothing.
  unfoldable pub query : (Db → Result A) → Exec A
  query f [] s = (f s, [], s)
  query f (false ∷ fs) s = (f s, fs, s)
  query f (true ∷ fs) s = (err Error.db_failure, fs, s)

  -- An INSERT … RETURNING: it fails and writes nothing, or it is done.
  unfoldable pub returning : (Db → A × Db) → Exec A
  returning f [] s = let (a, s') = f s in (ok a, [], s')
  returning f (false ∷ fs) s = let (a, s') = f s in (ok a, fs, s')
  returning f (true ∷ fs) s = (err Error.db_failure, fs, s)

abbrev pub inserted : {A : Type 0} → Option (A × Db) → Faults → Db → Outcome A
inserted none fs s = (err Error.db_failure, fs, s)
inserted (some (a, s')) fs s = (ok a, fs, s')

-- An INSERT … RETURNING into a table with a constraint: `none` is a violation, which is an error of
-- the database.
unfoldable pub inserting : {A : Type 0} → (Db → Option (A × Db)) → Exec A
inserting f [] s = inserted (f s) [] s
inserting f (false ∷ fs) s = inserted (f s) fs s
inserting f (true ∷ fs) s = (err Error.db_failure, fs, s)

-- An UPDATE, DELETE or INSERT: it fails and writes nothing, or it is done.
unfoldable pub statement : (Db → Db) → Exec (Unit {0})
statement f [] s = (ok tt, [], f s)
statement f (false ∷ fs) s = (ok tt, fs, f s)
statement f (true ∷ fs) s = (err Error.db_failure, fs, s)

unfoldable pub raise_if : Bool → Error → Exec (Unit {0})
raise_if true e fs s = (err e, fs, s)
raise_if false e fs s = (ok tt, fs, s)

-- errors.Is(err, sql.ErrNoRows) turned into the service's own error.
abbrev pub rename_no_rows : {A : Type 0} → Error → Result A → Result A
rename_no_rows e (ok a) = ok a
rename_no_rows e (err Error.no_rows) = err e
rename_no_rows e (err other) = err other

-- A lookup whose missing row is no error.
abbrev pub ignore_no_rows : {A : Type 0} → Result A → Result (Unit {0})
ignore_no_rows (ok a) = ok tt
ignore_no_rows (err Error.no_rows) = ok tt
ignore_no_rows (err other) = err other

-- A lookup whose missing row is answered by `none`.
abbrev pub no_rows_to_none : {A : Type 0} → Result A → Result (Option A)
no_rows_to_none (ok a) = ok (some a)
no_rows_to_none (err Error.no_rows) = ok none
no_rows_to_none (err other) = err other

-- An error that is logged and answered by `none`.
abbrev pub result_to_option : {A : Type 0} → Result A → Option A
result_to_option (ok a) = some a
result_to_option (err e) = none

module _ {A : Type 0} where
  unfoldable pub no_rows_as : Error → Exec A → Exec A
  no_rows_as e m fs s = let (r, fs', s') = m fs s in (rename_no_rows e r, fs', s')

  unfoldable pub no_rows_ok : Exec A → Exec (Unit {0})
  no_rows_ok m fs s = let (r, fs', s') = m fs s in (ignore_no_rows r, fs', s')

  unfoldable pub optional : Exec A → Exec (Option A)
  optional m fs s = let (r, fs', s') = m fs s in (no_rows_to_none r, fs', s')

  unfoldable pub try : Exec A → Exec (Option A)
  try m fs s = let (r, fs', s') = m fs s in (ok (result_to_option r), fs', s')

  -- An error that is logged and dropped.
  unfoldable pub attempt : Exec A → Exec (Unit {0})
  attempt m fs s = let (r, fs', s') = m fs s in (ok tt, fs', s')

-- A step that is made only if the test holds.
unfoldable pub when : Bool → Exec (Unit {0}) → Exec (Unit {0})
unfolding pure
when true m = m
when false m = pure tt

infixl 5 ◌>>=◌ ◌>>◌
-- Opening this opens the other ways to build an action too.
unfoldable pub ◌>>=◌ : {A B : Type 0} → Exec A → (A → Exec B) → Exec B
unfolding pure lift query returning inserting statement raise_if no_rows_as no_rows_ok optional try
    attempt when
◌>>=◌ m f fs s = let (r, fs', s') = m fs s in continue r f fs' s'

abbrev pub ◌>>◌ : {A B : Type 0} → Exec A → Exec B → Exec B
m >> n = m >>= λ _. n

-- A loop over a slice, for the effects of its body.
unfoldable pub for_each : {A : Type 0} → (A → Exec (Unit {0})) → List A → Exec (Unit {0})
unfolding ◌>>=◌
for_each body [] = pure tt
for_each body (x ∷ xs) = do body x; for_each body xs

-- A row that a query found, or sql.ErrNoRows.
abbrev pub row_of : {A : Type 0} → Option A → Result A
row_of none = err Error.no_rows
row_of (some a) = ok a

pub Result-cases :
    {A : Type 0} (r : Result A) → ((a : A) × (r ≡ ok a)) ⊎ ((e : Error) × (r ≡ err e))
Result-cases (ok a) = inl (a, refl)
Result-cases (err e) = inr (e, refl)

-- A step whose outcome is known, and the rest.
pub bind_ok :
    {A B : Type 0} (m : Exec A) (f : A → Exec B) {fs gs : Faults} {s t : Db} {a : A}
    → m fs s ≡ (ok a, gs, t)
    → (m >>= f) fs s ≡ f a gs t
unfolding ◌>>=◌
bind_ok m f h = rw h refl

pub bind_err :
    {A B : Type 0} (m : Exec A) (f : A → Exec B) {fs gs : Faults} {s t : Db} {e : Error}
    → m fs s ≡ (err e, gs, t)
    → (m >>= f) fs s ≡ (err e, gs, t)
unfolding ◌>>=◌
bind_err m f h = rw h refl

pub attempt_run :
    {A : Type 0} (m : Exec A) {fs gs : Faults} {s t : Db} {r : Result A}
    → m fs s ≡ (r, gs, t)
    → attempt m fs s ≡ (ok tt, gs, t)
unfolding attempt
attempt_run m h = rw h
