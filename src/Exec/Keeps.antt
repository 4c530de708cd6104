-- ===== src/Exec/Keeps.antt =====
-- A predicate of the database that an action keeps, whatever calls of the database fail: a rule for
-- each way to build an action.
use orgfin_diploma.Prelude.{
  none, some, ◌≡◌, refl, sym, subst, Bool, true, false, [], ◌∷◌, Option, some,
}
use orgfin_diploma.Models.{Db}
use orgfin_diploma.Exec.{
  inserted, inserting, Error, Result, ok, err, Faults, Exec, pure, lift, query, returning,
  statement, raise_if, no_rows_as, optional, try, attempt, when, ◌>>=◌, continue, inserting,
}
use orgfin_diploma.Exec.Rules.{
  IsReadOnly, IsReadOnly-pure, IsReadOnly-lift, IsReadOnly-query, IsReadOnly-raise_if,
}
use orgfin_diploma.Exec.Answers.{Ensures, Yields}

pub record Keeps {A : Type 0} (P : Db → Type 0) (m : Exec A) : Type 0 where
  pub at : (fs : Faults) (s : Db) → P s → P (m fs s).2

module _ {A : Type 0} {P : Db → Type 0} where
  pub Keeps-read : (m : Exec A) → IsReadOnly m → Keeps P m
  Keeps-read m h = record { at = λ fs s p. subst P (sym (h.at fs s)) p }

  pub Keeps-pure : (a : A) → Keeps P (pure a)
  Keeps-pure a = Keeps-read (pure a) (IsReadOnly-pure a)

  pub Keeps-lift : (r : Result A) → Keeps P (lift r)
  Keeps-lift r = Keeps-read (lift r) (IsReadOnly-lift r)

  pub Keeps-query : (f : Db → Result A) → Keeps P (query f)
  Keeps-query f = Keeps-read (query f) (IsReadOnly-query f)

  pub Keeps-no_rows_as : (e : Error) (m : Exec A) → Keeps P m → Keeps P (no_rows_as e m)
  unfolding no_rows_as
  Keeps-no_rows_as e m h = record { at = h.at }

  pub Keeps-optional : (m : Exec A) → Keeps P m → Keeps P (optional m)
  unfolding optional
  Keeps-optional m h = record { at = h.at }

  pub Keeps-try : (m : Exec A) → Keeps P m → Keeps P (try m)
  unfolding try
  Keeps-try m h = record { at = h.at }

  pub Keeps-attempt : (m : Exec A) → Keeps P m → Keeps P (attempt m)
  unfolding attempt
  Keeps-attempt m h = record { at = h.at }

  returning_keeps :
      (f : Db → A × Db)
      → ((s : Db) → P s → P (f s).1)
      → (fs : Faults) (s : Db) → P s
      → P (returning f fs s).2
  unfolding returning
  returning_keeps f h [] s p = h s p
  returning_keeps f h (true ∷ fs) s p = p
  returning_keeps f h (false ∷ fs) s p = h s p

  pub Keeps-returning : (f : Db → A × Db) → ((s : Db) → P s → P (f s).1) → Keeps P (returning f)
  Keeps-returning f h = record { at = returning_keeps f h }

module _ {A : Type 0} {P : Db → Type 0} where
  inserted_keeps :
      (o : Option (A × Db)) (fs : Faults) (s : Db)
      → P s
      → ((a : A) (t : Db) → o ≡ some (a, t) → P t)
      → P (inserted o fs s).2
  inserted_keeps none fs s p h = p
  inserted_keeps (some (a, t)) fs s p h = h a t refl

  inserting_keeps :
      (f : Db → Option (A × Db))
      → ((s : Db) (a : A) (t : Db) → P s → f s ≡ some (a, t) → P t)
      → (fs : Faults) (s : Db) → P s
      → P (inserting f fs s).2
  unfolding inserting
  inserting_keeps f h [] s p = inserted_keeps (f s) [] s p (λ a t e. h s a t p e)
  inserting_keeps f h (true ∷ fs) s p = p
  inserting_keeps f h (false ∷ fs) s p = inserted_keeps (f s) fs s p (λ a t e. h s a t p e)

  pub Keeps-inserting :
      (f : Db → Option (A × Db))
      → ((s : Db) (a : A) (t : Db) → P s → f s ≡ some (a, t) → P t)
      → Keeps P (inserting f)
  Keeps-inserting f h = record { at = inserting_keeps f h }

module _ {P : Db → Type 0} where
  pub Keeps-raise_if : (b : Bool) (e : Error) → Keeps P (raise_if b e)
  Keeps-raise_if b e = Keeps-read (raise_if b e) (IsReadOnly-raise_if b e)

  statement_keeps :
      (f : Db → Db)
      → ((s : Db) → P s → P (f s))
      → (fs : Faults) (s : Db) → P s
      → P (statement f fs s).2
  unfolding statement
  statement_keeps f h [] s p = h s p
  statement_keeps f h (true ∷ fs) s p = p
  statement_keeps f h (false ∷ fs) s p = h s p

  pub Keeps-statement : (f : Db → Db) → ((s : Db) → P s → P (f s)) → Keeps P (statement f)
  Keeps-statement f h = record { at = statement_keeps f h }

  pub Keeps-when : (b : Bool) (m : Exec (Unit {0})) → Keeps P m → Keeps P (when b m)
  unfolding when
  Keeps-when true m h = h
  Keeps-when false m h = Keeps-pure tt

module _ {A B : Type 0} {P : Db → Type 0} where
  continue_keeps :
      (r : Result A) (f : A → Exec B) (fs : Faults) (s : Db)
      → ((a : A) → r ≡ ok a → Keeps P (f a))
      → P s
      → P (continue r f fs s).2
  continue_keeps (ok a) f fs s h p = (h a refl).at fs s p
  continue_keeps (err e) f fs s h p = p

  pub Keeps-bind :
      (m : Exec A) (f : A → Exec B) → Keeps P m → ((a : A) → Keeps P (f a)) → Keeps P (m >>= f)
  unfolding ◌>>=◌
  Keeps-bind m f hm hf = record {
    at = λ fs s p. continue_keeps (m fs s).0 f (m fs s).1 (m fs s).2 (λ a _. hf a) (hm.at fs s p);
  }

  -- The same where the rest relies on what the first step ensures of its answer.
  pub Keeps-bind_ensured :
      {Q : A → Type 0} (m : Exec A) (f : A → Exec B)
      → Ensures Q m
      → Keeps P m
      → ((a : A) → Q a → Keeps P (f a))
      → Keeps P (m >>= f)
  unfolding ◌>>=◌
  Keeps-bind_ensured m f hq hm hf = record {
    at = λ fs s p.
        continue_keeps (m fs s).0 f (m fs s).1 (m fs s).2 (λ a e. hf a (hq.at fs s a e))
          (hm.at fs s p);
  }

module _ {A B : Type 0} {P : Db → Type 0} where
  pub Keeps-bind_answer :
      {Q : A → Type 0} (m : Exec A) (f : A → Exec B)
      → Yields P Q m
      → Keeps P m
      → ((a : A) → Q a → Keeps P (f a))
      → Keeps P (m >>= f)
  unfolding ◌>>=◌
  Keeps-bind_answer m f hq hm hf = record {
    at = λ fs s p.
        continue_keeps (m fs s).0 f (m fs s).1 (m fs s).2 (λ a e. hf a (hq.at fs s a p e))
          (hm.at fs s p);
  }

pub ruleset keeps = (
  Keeps-pure, Keeps-lift, Keeps-query, Keeps-no_rows_as, Keeps-optional, Keeps-try, Keeps-attempt,
  Keeps-raise_if, Keeps-when, Keeps-bind,
)
