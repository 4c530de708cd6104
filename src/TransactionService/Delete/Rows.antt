-- ===== src/TransactionService/Delete/Rows.antt =====
-- The table of transactions under a soft delete and under a recalculation.
use orgfin_diploma.Prelude.{
  ℕ, ◌≡◌, refl, ◌≢◌, ◌∙◌, none, true, List, [], ◌∷◌, arith, All, Bool-cases, subst, ◌==◌, inl, inr,
  sym,
}
use orgfin_diploma.Models.{Transaction}
use orgfin_diploma.Repositories.Transactions.{find, change}
use orgfin_diploma.TransactionService.Recalc.Alike.{Alike}
use orgfin_diploma.TransactionService.Recalc.Rows.{HasUniqueIds}

-- A deleted row is not found, and a recalculation does not bring it back.
pub find-Alike :
    (i : ℕ) (ts us : List Transaction) → Alike ts us → find i ts ≡ none → find i us ≡ none
unfolding find
find-Alike i [] [] h e = refl
find-Alike i [] (u ∷ us) h e = absurd h
find-Alike i (t ∷ ts) [] h e = refl
find-Alike i (t ∷ ts) (u ∷ us) h e = ground (arith, h.0, find-Alike i ts us h.1)

Fresh-Alike :
    (i : ℕ) (ts us : List Transaction)
    → Alike ts us
    → All (λ t. t.id ≢ i) ts
    → All (λ t. t.id ≢ i) us
Fresh-Alike i [] [] h f = tt
Fresh-Alike i [] (u ∷ us) h f = absurd h
Fresh-Alike i (t ∷ ts) [] h f = tt
Fresh-Alike i (t ∷ ts) (u ∷ us) h f = (λ e. f.0 (h.0.same_id ∙ e), Fresh-Alike i ts us h.1 f.1)

pub HasUniqueIds-Alike :
    (ts us : List Transaction) → Alike ts us → HasUniqueIds ts → HasUniqueIds us
HasUniqueIds-Alike [] [] h f = tt
HasUniqueIds-Alike [] (u ∷ us) h f = absurd h
HasUniqueIds-Alike (t ∷ ts) [] h f = tt
HasUniqueIds-Alike (t ∷ ts) (u ∷ us) h f = (
  subst (λ i. All (λ v. v.id ≢ i) us) h.0.same_id (Fresh-Alike t.id ts us h.1 f.0),
  HasUniqueIds-Alike ts us h.1 f.1,
)

-- The soft delete of a row.
abbrev pub set_deleted : Transaction → Transaction
set_deleted t = record t { is_deleted = true }

pub find-change_deleted : (i : ℕ) (ts : List Transaction) → find i (change i set_deleted ts) ≡ none
unfolding find change
find-change_deleted i [] = refl
find-change_deleted i (t ∷ ts) = elim (Bool-cases (t.id == i)) [
  | inl same ↦ rw (same, same) (find-change_deleted i ts)
  | inr other ↦ rw (other, other) (find-change_deleted i ts)
]

-- A delete of another row does not bring a row back.
pub find-change_still_none :
    (i j : ℕ) (ts : List Transaction) → find i ts ≡ none → find i (change j set_deleted ts) ≡ none
unfolding find change
find-change_still_none i j [] h = refl
find-change_still_none i j (t ∷ ts) h = elim (Bool-cases (t.id == j)) [
  | inl same ↦ rw same (ground (arith, find-change_still_none i j ts))
  | inr other ↦ rw other (ground (arith, find-change_still_none i j ts))
]

-- An UPDATE that leaves the ids keeps them unique.
module _ (f : Transaction → Transaction) (ids : (t : Transaction) → (f t).id ≡ t.id) where
  Fresh-change :
      (i j : ℕ) (ts : List Transaction)
      → All (λ t. t.id ≢ i) ts
      → All (λ t. t.id ≢ i) (change j f ts)
  unfolding change
  Fresh-change i j [] h = tt
  Fresh-change i j (t ∷ ts) h = elim (Bool-cases (t.id == j)) [
    | inl same ↦ rw same ((λ e. h.0 (sym (ids t) ∙ e)), Fresh-change i j ts h.1)
    | inr other ↦ rw other (h.0, Fresh-change i j ts h.1)
  ]

  pub change-HasUniqueIds :
      (j : ℕ) (ts : List Transaction) → HasUniqueIds ts → HasUniqueIds (change j f ts)
  unfolding change
  change-HasUniqueIds j [] h = tt
  change-HasUniqueIds j (t ∷ ts) h = elim (Bool-cases (t.id == j)) [
    | inl same ↦ rw same (
      subst (λ i. All (λ v. v.id ≢ i) (change j f ts)) (sym (ids t)) (Fresh-change t.id j ts h.0),
      change-HasUniqueIds j ts h.1,
    )
    | inr other ↦ rw other (Fresh-change t.id j ts h.0, change-HasUniqueIds j ts h.1)
  ]
