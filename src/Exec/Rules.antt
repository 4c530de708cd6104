-- ===== src/Exec/Rules.antt =====
-- Actions that write nothing: a rule for each way to build one.
use orgfin_diploma.Prelude.{◌≡◌, refl, ◌∙◌, Bool, true, false, [], ◌∷◌}
use orgfin_diploma.Models.{Db}
use orgfin_diploma.Exec.{
  Error, Result, ok, err, Faults, Exec, pure, lift, query, raise_if, no_rows_as, no_rows_ok,
  optional, try, ◌>>=◌, continue,
}

pub record IsReadOnly {A : Type 0} (m : Exec A) : Type 0 where
  pub at : (fs : Faults) (s : Db) → (m fs s).2 ≡ s

-- Reading.
module _ {A : Type 0} where
  pub IsReadOnly-pure : (a : A) → IsReadOnly (pure a)
  unfolding pure
  IsReadOnly-pure a = record { at = λ fs s. refl }

  pub IsReadOnly-lift : (r : Result A) → IsReadOnly (lift r)
  unfolding lift
  IsReadOnly-lift r = record { at = λ fs s. refl }

  query_same : (f : Db → Result A) (fs : Faults) (s : Db) → (query f fs s).2 ≡ s
  unfolding query
  query_same f [] s = refl
  query_same f (true ∷ fs) s = refl
  query_same f (false ∷ fs) s = refl

  pub IsReadOnly-query : (f : Db → Result A) → IsReadOnly (query f)
  IsReadOnly-query f = record { at = query_same f }

  pub IsReadOnly-no_rows_as : (e : Error) (m : Exec A) → IsReadOnly m → IsReadOnly (no_rows_as e m)
  unfolding no_rows_as
  IsReadOnly-no_rows_as e m h = record { at = h.at }

  pub IsReadOnly-no_rows_ok : (m : Exec A) → IsReadOnly m → IsReadOnly (no_rows_ok m)
  unfolding no_rows_ok
  IsReadOnly-no_rows_ok m h = record { at = h.at }

  pub IsReadOnly-optional : (m : Exec A) → IsReadOnly m → IsReadOnly (optional m)
  unfolding optional
  IsReadOnly-optional m h = record { at = h.at }

  pub IsReadOnly-try : (m : Exec A) → IsReadOnly m → IsReadOnly (try m)
  unfolding try
  IsReadOnly-try m h = record { at = h.at }

raise_if_same : (b : Bool) (e : Error) (fs : Faults) (s : Db) → (raise_if b e fs s).2 ≡ s
unfolding raise_if
raise_if_same true e fs s = refl
raise_if_same false e fs s = refl

pub IsReadOnly-raise_if : (b : Bool) (e : Error) → IsReadOnly (raise_if b e)
IsReadOnly-raise_if b e = record { at = raise_if_same b e }

module _ {A B : Type 0} where
  continue_same :
      (r : Result A) (f : A → Exec B) (fs : Faults) (s : Db)
      → ((a : A) → IsReadOnly (f a))
      → (continue r f fs s).2 ≡ s
  continue_same (ok a) f fs s h = (h a).at fs s
  continue_same (err e) f fs s h = refl

  pub IsReadOnly-bind :
      (m : Exec A) (f : A → Exec B)
      → IsReadOnly m
      → ((a : A) → IsReadOnly (f a))
      → IsReadOnly (m >>= f)
  unfolding ◌>>=◌
  IsReadOnly-bind m f hm hf = record {
    at = λ fs s. continue_same (m fs s).0 f (m fs s).1 (m fs s).2 hf ∙ hm.at fs s;
  }

pub ruleset read_only = (
  IsReadOnly-pure, IsReadOnly-lift, IsReadOnly-query, IsReadOnly-no_rows_as, IsReadOnly-no_rows_ok,
  IsReadOnly-optional, IsReadOnly-try, IsReadOnly-raise_if, IsReadOnly-bind,
)
