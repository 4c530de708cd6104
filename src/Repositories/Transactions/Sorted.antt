-- ===== src/Repositories/Transactions/Sorted.antt =====
-- The ORDER BY of get_by_account_id_for_recalc: a total order of the rows, and sorted results.
use orgfin_diploma.Prelude.{
  ◌≡◌, inl, inr, Bool, true, false, List, [], ◌∷◌, arith, All, All-map_proof, Bool-cases, keep,
}
use orgfin_diploma.Models.{Transaction}
use orgfin_diploma.Repositories.Transactions.{ordered, insert_sorted, sort}

pub ordered_trans :
    (t u v : Transaction) → ordered t u ≡ true → ordered u v ≡ true → ordered t v ≡ true
unfolding ordered
ordered_trans t u v p q = ground arith

pub ordered_total : (t u : Transaction) → ordered t u ≡ false → ordered u t ≡ true
unfolding ordered
ordered_total t u p = ground arith

abbrev pub IsSorted : List Transaction → Type 0
IsSorted [] = Unit
IsSorted (t ∷ ts) = All (λ u. ordered t u ≡ true) ts × IsSorted ts

All-insert_sorted :
    (P : Transaction → Type 0) (t : Transaction) (us : List Transaction)
    → P t
    → All P us
    → All P (insert_sorted t us)
unfolding insert_sorted
All-insert_sorted P t [] p h = (p, tt)
All-insert_sorted P t (u ∷ us) p h = elim (Bool-cases (ordered t u)) [
  | inl e ↦ rw e (p, h)
  | inr e ↦ rw e (h.0, All-insert_sorted P t us p h.1)
]

pub insert_sorted-IsSorted :
    (t : Transaction) (us : List Transaction) → IsSorted us → IsSorted (insert_sorted t us)
unfolding insert_sorted
insert_sorted-IsSorted t [] h = (tt, tt)
insert_sorted-IsSorted t (u ∷ us) h = elim (Bool-cases (ordered t u)) [
  | inl e ↦ rw e ((e, All-map_proof (λ v. ordered_trans t u v e) us h.0), h)
  | inr e ↦ rw e (
    All-insert_sorted (λ v. ordered u v ≡ true) t us (ordered_total t u e) h.0,
    insert_sorted-IsSorted t us h.1,
  )
]

pub sort-IsSorted : (ts : List Transaction) → IsSorted (sort ts)
unfolding sort
sort-IsSorted [] = tt
sort-IsSorted (t ∷ ts) = insert_sorted-IsSorted t (sort ts) (sort-IsSorted ts)

-- What holds of all rows holds of the sorted rows, and of those that a test keeps.
pub All-sort : (P : Transaction → Type 0) (ts : List Transaction) → All P ts → All P (sort ts)
unfolding sort
All-sort P [] h = tt
All-sort P (t ∷ ts) h = All-insert_sorted P t (sort ts) h.0 (All-sort P ts h.1)

pub All-keep :
    (P : Transaction → Type 0) (p : Transaction → Bool) (ts : List Transaction)
    → All P ts
    → All P (keep p ts)
All-keep P p [] h = tt
All-keep P p (t ∷ ts) h = elim (Bool-cases (p t)) [
  | inl e ↦ rw e (h.0, All-keep P p ts h.1)
  | inr e ↦ rw e (All-keep P p ts h.1)
]
