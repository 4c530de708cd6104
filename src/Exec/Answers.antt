-- ===== src/Exec/Answers.antt =====
-- What the answer of an action meets, whatever calls of the database fail: a rule for each way to
-- build an action.
use orgfin_diploma.Prelude.{none, some, ◌≡◌, refl, subst, Bool, true, false, [], ◌∷◌, Option, some}
use orgfin_diploma.Models.{Db}
use orgfin_diploma.Exec.{
  Error, Result, ok, err, Faults, Exec, pure, lift, query, raise_if, no_rows_as, optional, ◌>>=◌,
  continue, rename_no_rows, no_rows_to_none,
}

-- The answer of an action that succeeds.
pub record Ensures {A : Type 0} (Q : A → Type 0) (m : Exec A) : Type 0 where
  pub at : (fs : Faults) (s : Db) (a : A) → (m fs s).0 ≡ ok a → Q a

module _ {A B : Type 0} where
  continue_ensures :
      {Q : B → Type 0} (r : Result A) (f : A → Exec B) (fs : Faults) (s : Db) (b : B)
      → ((a : A) → r ≡ ok a → Ensures Q (f a))
      → (continue r f fs s).0 ≡ ok b
      → Q b
  continue_ensures (ok a) f fs s b h e = (h a refl).at fs s b e
  continue_ensures (err x) f fs s b h e = cc

  pub Ensures-bind :
      {Q : B → Type 0} (m : Exec A) (f : A → Exec B)
      → ((a : A) → Ensures Q (f a))
      → Ensures Q (m >>= f)
  unfolding ◌>>=◌
  Ensures-bind m f hf = record {
    at = λ fs s b e. continue_ensures (m fs s).0 f (m fs s).1 (m fs s).2 b (λ a _. hf a) e;
  }

  pub Ensures-bind_ensured :
      {R : A → Type 0} {Q : B → Type 0} (m : Exec A) (f : A → Exec B)
      → Ensures R m
      → ((a : A) → R a → Ensures Q (f a))
      → Ensures Q (m >>= f)
  unfolding ◌>>=◌
  Ensures-bind_ensured m f hm hf = record {
    at = λ fs s b e.
        continue_ensures (m fs s).0 f (m fs s).1 (m fs s).2 b (λ a k. hf a (hm.at fs s a k)) e;
  }

pub Ensures-lift :
    {A : Type 0} {Q : A → Type 0} (r : Result A) → ((a : A) → r ≡ ok a → Q a) → Ensures Q (lift r)
unfolding lift
Ensures-lift r h = record { at = λ fs s a e. h a e }

pub Ensures-pure : {A : Type 0} {Q : A → Type 0} (a : A) → Q a → Ensures Q (pure a)
unfolding pure
Ensures-pure {Q = Q} a h = record { at = λ fs s b e. subst Q (cc e) h }

raise_if_ok :
    (b : Bool) (e : Error) (fs : Faults) (s : Db) (u : Unit {0})
    → (raise_if b e fs s).0 ≡ ok u
    → b ≡ false
unfolding raise_if
raise_if_ok true e fs s u h = cc
raise_if_ok false e fs s u h = refl

-- A check that is passed.
pub Ensures-raise_if : (b : Bool) (e : Error) → Ensures (λ _. b ≡ false) (raise_if b e)
Ensures-raise_if b e = record { at = raise_if_ok b e }

-- The answer of an action that starts where a predicate of the database holds.
pub record Yields {A : Type 0} (P : Db → Type 0) (Q : A → Type 0) (m : Exec A) : Type 0 where
  pub at : (fs : Faults) (s : Db) (a : A) → P s → (m fs s).0 ≡ ok a → Q a

renamed : {A : Type 0} (e : Error) (r : Result A) (a : A) → rename_no_rows e r ≡ ok a → r ≡ ok a
renamed e (ok b) a h = h
renamed e (err Error.no_rows) a h = cc
renamed e (err x) a h = cc

-- What was found, if anything.
abbrev pub IfSome : {A : Type 0} → (A → Type 0) → Option A → Type 0
IfSome Q none = Unit
IfSome Q (some a) = Q a

found_if :
    {A : Type 0} (Q : A → Type 0) (r : Result A) (o : Option A)
    → ((a : A) → r ≡ ok a → Q a)
    → no_rows_to_none r ≡ ok o
    → IfSome Q o
found_if Q r none h k = tt
found_if Q (ok b) (some a) h k = h a (cc k)
found_if Q (err Error.no_rows) (some a) h k = cc
found_if Q (err e) (some a) h k = cc

module _ {A : Type 0} {P : Db → Type 0} {Q : A → Type 0} where
  query_yields :
      (f : Db → Result A)
      → ((s : Db) (a : A) → P s → f s ≡ ok a → Q a)
      → (fs : Faults) (s : Db) (a : A) → P s
      → (query f fs s).0 ≡ ok a
      → Q a
  unfolding query
  query_yields f h [] s a p e = h s a p e
  query_yields f h (false ∷ fs) s a p e = h s a p e
  query_yields f h (true ∷ fs) s a p e = cc

  pub Yields-query :
      (f : Db → Result A) → ((s : Db) (a : A) → P s → f s ≡ ok a → Q a) → Yields P Q (query f)
  Yields-query f h = record { at = query_yields f h }

  pub Yields-no_rows_as : (e : Error) (m : Exec A) → Yields P Q m → Yields P Q (no_rows_as e m)
  unfolding no_rows_as
  Yields-no_rows_as e m h = record { at = λ fs s a p k. h.at fs s a p (renamed e (m fs s).0 a k) }

  pub Yields-optional : (m : Exec A) → Yields P Q m → Yields P (IfSome Q) (optional m)
  unfolding optional
  Yields-optional m h = record { at = λ fs s o p. found_if Q (m fs s).0 o (λ a. h.at fs s a p) }
