-- ===== src/BudgetService/Editing/Ownership.antt =====
-- Whose rows the budgets are that Update, Delete and Archive of
-- backend/internal/services/budgets/service.go reach.
use orgfin_diploma.Repositories.Lookups.{find_currency}
use orgfin_diploma.Exec.Answers.{Yields, Yields-no_rows_as, Yields-query}
use orgfin_diploma.Exec.Rules.{IsReadOnly}
use orgfin_diploma.Models.{Db, Budget, BudgetModel}
use orgfin_diploma.Exec.{
  ◌>>=◌, Exec, Faults, ok, Result, continue, ◌>>◌, query, raise_if, err, Error, no_rows_as, pure,
}
use orgfin_diploma.Repositories.Budgets
use orgfin_diploma.Repositories.Budgets.Found.{HasUniqueIds, All-coherent}
use orgfin_diploma.BudgetService.Editing.{own_budget}
use orgfin_diploma.Repositories.Budgets.{
  change, scanned_row, joined, is_some, BudgetTransactionRow, store_update, set_columns,
}
use orgfin_diploma.Prelude.{
  ℕ, List, ◌≡◌, keep, All, not, ◌∙◌, ◌∷◌, if◌then◌else◌, sym, ◌==◌, equal_or_not, Bool, [], inl,
  true, eq→==, false, inr, refl, ne→==, Option, All-map_proof, subst, HasRow, ap, some, All-row,
  ◌&&◌, Bool-cases, ==→eq, All-find_first, All-rows, find_first_passes, none,
}

-- The rows of other users.
abbrev pub foreign : ℕ → Db → List Budget
foreign u s = keep (λ b. not (b.user_id == u)) s.budgets

-- Every row with an id is the user's.
abbrev pub IsOwnId : ℕ → ℕ → List Budget → Type 0
IsOwnId u i bs = All (λ b. b.id ≡ i → b.user_id ≡ u) bs

module _ (u i : ℕ) (f : Budget → Budget)
    (same : (b : Budget) → ((f b).id ≡ b.id) × ((f b).user_id ≡ b.user_id)) where
  row_same :
      (b : Budget)
      → ((if b.id == i then f b else b).id ≡ b.id)
        × ((if b.id == i then f b else b).user_id ≡ b.user_id)
  row_same b = go (b.id == i)
    where
      go :
          (hit : Bool)
          → ((if hit then f b else b).id ≡ b.id) × ((if hit then f b else b).user_id ≡ b.user_id)
      go true = same b
      go false = (refl, refl)

  IsOwnId-change : (bs : List Budget) → IsOwnId u i bs → IsOwnId u i (change i f bs)
  IsOwnId-change [] h = tt
  IsOwnId-change (b ∷ bs) h =
      ((λ e. (row_same b).1 ∙ h.0 (sym (row_same b).0 ∙ e)), IsOwnId-change bs h.1)

  foreign-change :
      (bs : List Budget)
      → IsOwnId u i bs
      → keep (λ b. not (b.user_id == u)) (change i f bs) ≡ keep (λ b. not (b.user_id == u)) bs
  foreign-change [] h = refl
  foreign-change (b ∷ bs) h = elim (equal_or_not b.id i) [
    | inl e ↦ rw (eq→== b.id i e) (
        rw (eq→== (f b).user_id u ((same b).1 ∙ h.0 e), eq→== b.user_id u (h.0 e))
          (foreign-change bs h.1))
    | inr ne ↦ rw (ne→== b.id i ne, foreign-change bs h.1) refl
  ]

-- What an update of the user's row keeps.
unfoldable pub IsApart : ℕ → ℕ → List Budget → Db → Type 0
IsApart u i others t = IsOwnId u i t.budgets × (foreign u t ≡ others)

-- A step that only reads, and then the rest from the same database.
pub read_then :
    {A B : Type 0} (R : Db → Type 0) (m : Exec A) (f : A → Exec B) (fs : Faults) (s : Db)
    → IsReadOnly m
    → R s
    → ((a : A) → (m fs s).0 ≡ ok a → (gs : Faults) → R (f a gs s).2)
    → R ((m >>= f) fs s).2
unfolding ◌>>=◌
read_then {A = A} R m f fs s only h rest = go (m fs s).0 (m fs s).1 (m fs s).2 (only.at fs s) rest
  where
    go :
        (r : Result A) (gs : Faults) (t : Db)
        → t ≡ s
        → ((a : A) → r ≡ ok a → (gs : Faults) → R (f a gs s).2)
        → R (continue r f gs t).2
    go (ok a) gs t e k = subst (λ x. R (f a gs x).2) (sym e) (k a refl gs)
    go (err x) gs t e k = subst R (sym e) h

-- An update of the row of the id.
pub Keeps-own :
    (u i : ℕ) (others : List Budget) (f : Budget → Budget)
    → ((b : Budget) → ((f b).id ≡ b.id) × ((f b).user_id ≡ b.user_id))
    → (t : Db) → IsApart u i others t
    → IsApart u i others (record t { budgets = change i f t.budgets })
unfolding IsApart
Keeps-own u i others f same t (own, e) =
    (IsOwnId-change u i f same t.budgets own, foreign-change u i f same t.budgets own ∙ e)

-- What GetByID reads is a row of that id.
unfoldable pub IsRowOf : ℕ → Db → BudgetModel → Type 0
IsRowOf i s m = HasRow m.row s.budgets × (m.row.id ≡ i)

read_row :
    (i : ℕ) (s : Db) (found : Option Budget) (m : BudgetModel)
    → Budgets.find i s.budgets ≡ found
    → scanned_row s found ≡ ok m
    → IsRowOf i s m
unfolding IsRowOf
read_row i s none m e h = cc
read_row i s (some b) m e h =
    elim (Bool-cases (is_some (find_currency b.currency_id s.currencies))) [
      | inl k ↦
          let same : b ≡ m.row = ap (λ x. x.row) (joined_same (rw k at h)) in
          subst (λ x. HasRow x s.budgets × (x.id ≡ i)) same
            (
              All-find_first (λ x. HasRow x s.budgets) (λ x. x.id == i && not x.is_deleted)
                  s.budgets (All-rows s.budgets) e,
              ==→eq b.id i (
                  first_part (b.id == i) (not b.is_deleted)
                    (find_first_passes (λ x. x.id == i && not x.is_deleted) s.budgets e)),
            )
      | inr k ↦ cc (rw k at h)
    ]
  where
    joined_same : ok (joined s b) ≡ ok m → joined s b ≡ m
    joined_same k = cc k

    first_part : (x y : Bool) → (x && y) ≡ true → x ≡ true
    first_part true y k = refl
    first_part false y k = cc k

checked_same :
    (u : ℕ) (a m : BudgetModel) (gs : Faults) (t : Db)
    → ((do raise_if (not (a.row.user_id == u)) Error.access_denied; pure a) gs t).0 ≡ ok m
    → (a ≡ m) × (a.row.user_id ≡ u)
unfolding ◌>>=◌
checked_same u a m gs t h = elim (Bool-cases (a.row.user_id == u)) [
  | inl e ↦ (cc (rw e at h), ==→eq a.row.user_id u e)
  | inr e ↦ cc (rw e at h)
]

pub own_row :
    (u i : ℕ) (fs : Faults) (s : Db) (m : BudgetModel)
    → (own_budget u i fs s).0 ≡ ok m
    → IsRowOf i s m × (m.row.user_id ≡ u)
unfolding own_budget Budgets.get_by_id ◌>>=◌
own_row u i fs s m h =
    go (no_rows_as Error.budget_not_found read fs s).0
      (no_rows_as Error.budget_not_found read fs s).1
      (no_rows_as Error.budget_not_found read fs s).2 (λ a e. answers.at fs s a refl e) h
  where
    read : Exec BudgetModel
    read = query (λ t. scanned_row t (Budgets.find i t.budgets))

    answers : Yields (λ t. t ≡ s) (IsRowOf i s) (no_rows_as Error.budget_not_found read)
    answers = Yields-no_rows_as Error.budget_not_found read (
        Yields-query _ (λ t a same e.
          subst (λ x. IsRowOf i x a) same (read_row i t (Budgets.find i t.budgets) a refl e)))

    go :
        (r : Result BudgetModel) (gs : Faults) (t : Db)
        → ((a : BudgetModel) → r ≡ ok a → IsRowOf i s a)
        → (continue r
            (λ a. (do raise_if (not (a.row.user_id == u)) Error.access_denied; pure a))
            gs
            t).0
          ≡ ok m
        → IsRowOf i s m × (m.row.user_id ≡ u)
    go (ok a) gs t row k =
        let (same, own) = checked_same u a m gs t k in
        subst (λ x. IsRowOf i s x × (x.row.user_id ≡ u)) same (row a refl, own)
    go (err e) gs t row k = cc k

-- The ids of a table are unique, so that all rows of that id are the user's.
pub own_id :
    (u i : ℕ) (fs : Faults) (s : Db) (m : BudgetModel)
    → HasUniqueIds s.budgets
    → (own_budget u i fs s).0 ≡ ok m
    → IsOwnId u i s.budgets
unfolding IsRowOf
own_id u i fs s m unique h =
    let ((row, same), own) = own_row u i fs s m h in
    All-map_proof (λ c only e. ap (λ x. x.user_id) (only (e ∙ sym same)) ∙ own) s.budgets
      (All-row (λ c. All (λ b. b.id ≡ c.id → b ≡ c) s.budgets) m.row s.budgets row
        (All-coherent s.budgets unique))
