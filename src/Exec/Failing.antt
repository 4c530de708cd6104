-- ===== src/Exec/Failing.antt =====
-- Two properties of actions, with rules for the ways to build one: an action fails only where the
-- database does, or it fails otherwise only before it writes.
use orgfin_diploma.Prelude.{
  Option, none, some, ◌≡◌, refl, ◌∙◌, Bool, true, false, [], ◌∷◌, ◌≢◌, if◌then◌else◌, Option, some,
}
use orgfin_diploma.Models.{Db}
use orgfin_diploma.Exec.{
  inserted, inserting, Error, Result, ok, err, Faults, Exec, pure, returning, statement, try,
  attempt, when, ◌>>=◌, continue, inserting,
}
use orgfin_diploma.Exec.Rules.{IsReadOnly}

-- The only error is that of a call of the database.
pub record FailsOnFault {A : Type 0} (m : Exec A) : Type 0 where
  pub at : (fs : Faults) (s : Db) (e : Error) → (m fs s).0 ≡ err e → e ≡ Error.db_failure

-- An error other than that of the database comes before anything is written.
pub record RejectsEarly {A : Type 0} (m : Exec A) : Type 0 where
  pub at :
      (fs : Faults) (s : Db) (e : Error)
      → (m fs s).0 ≡ err e
      → e ≢ Error.db_failure
      → (m fs s).2 ≡ s

-- Failing only where the database does.
module _ {A : Type 0} where
  pub FailsOnFault-pure : (a : A) → FailsOnFault (pure a)
  unfolding pure
  FailsOnFault-pure a = record { at = λ fs s e h. cc }

  returning_fails :
      (f : Db → A × Db) (fs : Faults) (s : Db) (e : Error)
      → (returning f fs s).0 ≡ err e
      → e ≡ Error.db_failure
  unfolding returning
  returning_fails f [] s e h = cc
  returning_fails f (true ∷ fs) s e h = cc
  returning_fails f (false ∷ fs) s e h = cc

  pub FailsOnFault-returning : (f : Db → A × Db) → FailsOnFault (returning f)
  FailsOnFault-returning f = record { at = returning_fails f }

  inserted_fails :
      (o : Option (A × Db)) (fs : Faults) (s : Db) (e : Error)
      → (inserted o fs s).0 ≡ err e
      → e ≡ Error.db_failure
  inserted_fails none fs s e h = cc
  inserted_fails (some (a, t)) fs s e h = cc

  inserting_fails :
      (f : Db → Option (A × Db)) (fs : Faults) (s : Db) (e : Error)
      → (inserting f fs s).0 ≡ err e
      → e ≡ Error.db_failure
  unfolding inserting
  inserting_fails f [] s e h = inserted_fails (f s) [] s e h
  inserting_fails f (true ∷ fs) s e h = cc
  inserting_fails f (false ∷ fs) s e h = inserted_fails (f s) fs s e h

  pub FailsOnFault-inserting : (f : Db → Option (A × Db)) → FailsOnFault (inserting f)
  FailsOnFault-inserting f = record { at = inserting_fails f }

  pub FailsOnFault-try : (m : Exec A) → FailsOnFault (try m)
  unfolding try
  FailsOnFault-try m = record { at = λ fs s e h. cc }

  pub FailsOnFault-attempt : (m : Exec A) → FailsOnFault (attempt m)
  unfolding attempt
  FailsOnFault-attempt m = record { at = λ fs s e h. cc }

statement_fails :
    (f : Db → Db) (fs : Faults) (s : Db) (e : Error)
    → (statement f fs s).0 ≡ err e
    → e ≡ Error.db_failure
unfolding statement
statement_fails f [] s e h = cc
statement_fails f (true ∷ fs) s e h = cc
statement_fails f (false ∷ fs) s e h = cc

pub FailsOnFault-statement : (f : Db → Db) → FailsOnFault (statement f)
FailsOnFault-statement f = record { at = statement_fails f }

pub FailsOnFault-when : (b : Bool) (m : Exec (Unit {0})) → FailsOnFault m → FailsOnFault (when b m)
unfolding when
FailsOnFault-when true m h = h
FailsOnFault-when false m h = FailsOnFault-pure tt

pub FailsOnFault-if :
    {A : Type 0} (b : Bool) (m n : Exec A)
    → FailsOnFault m
    → FailsOnFault n
    → FailsOnFault (if b then m else n)
FailsOnFault-if true m n h k = h
FailsOnFault-if false m n h k = k

module _ {A B : Type 0} where
  continue_fails :
      (r : Result A) (f : A → Exec B) (fs : Faults) (s : Db) (e : Error)
      → ((x : Error) → r ≡ err x → x ≡ Error.db_failure)
      → ((a : A) → FailsOnFault (f a))
      → (continue r f fs s).0 ≡ err e
      → e ≡ Error.db_failure
  continue_fails (ok a) f fs s e hr hf h = (hf a).at fs s e h
  continue_fails (err x) f fs s e hr hf h = cc (hr x refl)

  pub FailsOnFault-bind :
      (m : Exec A) (f : A → Exec B)
      → FailsOnFault m
      → ((a : A) → FailsOnFault (f a))
      → FailsOnFault (m >>= f)
  unfolding ◌>>=◌
  FailsOnFault-bind m f hm hf = record {
    at = λ fs s e. continue_fails (m fs s).0 f (m fs s).1 (m fs s).2 e (hm.at fs s) hf;
  }

  continue_rejects :
      (r : Result A) (f : A → Exec B) (fs : Faults) (s : Db) (e : Error)
      → ((a : A) → FailsOnFault (f a))
      → (continue r f fs s).0 ≡ err e
      → e ≢ Error.db_failure
      → (continue r f fs s).2 ≡ s
  continue_rejects (ok a) f fs s e hf h ne = absurd (ne ((hf a).at fs s e h))
  continue_rejects (err x) f fs s e hf h ne = refl

  -- Checks that only read, and then steps that only a fault stops.
  pub RejectsEarly-bind :
      (m : Exec A) (f : A → Exec B)
      → IsReadOnly m
      → ((a : A) → FailsOnFault (f a))
      → RejectsEarly (m >>= f)
  unfolding ◌>>=◌
  RejectsEarly-bind m f hm hf = record {
    at = λ fs s e h ne. continue_rejects (m fs s).0 f (m fs s).1 (m fs s).2 e hf h ne ∙ hm.at fs s;
  }

module _ {A B : Type 0} where
  continue_rejects_after :
      (r : Result A) (f : A → Exec B) (fs : Faults) (s t : Db) (e : Error)
      → ((x : Error) → r ≡ err x → x ≢ Error.db_failure → t ≡ s)
      → ((a : A) → FailsOnFault (f a))
      → (continue r f fs t).0 ≡ err e
      → e ≢ Error.db_failure
      → (continue r f fs t).2 ≡ s
  continue_rejects_after (ok a) f fs s t e hr hf h ne = absurd (ne ((hf a).at fs t e h))
  continue_rejects_after (err x) f fs s t e hr hf h ne = hr x refl (λ same. ne (cc same))

  pub RejectsEarly-then :
      (m : Exec A) (f : A → Exec B)
      → RejectsEarly m
      → ((a : A) → FailsOnFault (f a))
      → RejectsEarly (m >>= f)
  unfolding ◌>>=◌
  RejectsEarly-then m f hm hf = record {
    at = λ fs s e. continue_rejects_after (m fs s).0 f (m fs s).1 s (m fs s).2 e (hm.at fs s) hf;
  }

  continue_checked :
      (r : Result A) (f : A → Exec B) (fs : Faults) (s : Db) (e : Error)
      → ((a : A) → RejectsEarly (f a))
      → (continue r f fs s).0 ≡ err e
      → e ≢ Error.db_failure
      → (continue r f fs s).2 ≡ s
  continue_checked (ok a) f fs s e hf h ne = (hf a).at fs s e h ne
  continue_checked (err x) f fs s e hf h ne = refl

  pub RejectsEarly-checked :
      (m : Exec A) (f : A → Exec B)
      → IsReadOnly m
      → ((a : A) → RejectsEarly (f a))
      → RejectsEarly (m >>= f)
  unfolding ◌>>=◌
  RejectsEarly-checked m f hm hf = record {
    at = λ fs s e h ne. continue_checked (m fs s).0 f (m fs s).1 (m fs s).2 e hf h ne ∙ hm.at fs s;
  }

pub RejectsEarly-of_fails : {A : Type 0} {m : Exec A} → FailsOnFault m → RejectsEarly m
RejectsEarly-of_fails h = record { at = λ fs s e p ne. absurd (ne (h.at fs s e p)) }

pub ruleset fails_on_fault = (
  FailsOnFault-pure, FailsOnFault-returning, FailsOnFault-inserting, FailsOnFault-try,
  FailsOnFault-attempt, FailsOnFault-statement, FailsOnFault-when, FailsOnFault-if,
  FailsOnFault-bind,
)
