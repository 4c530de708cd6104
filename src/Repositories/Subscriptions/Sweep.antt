-- ===== src/Repositories/Subscriptions/Sweep.antt =====
-- UPDATE statements for the rows that a query found, one after the other, are one pass over the
-- table of subscriptions.
use orgfin_diploma.Prelude.{
  ℕ, ◌≡◌, ◌≢◌, refl, sym, ap, ◌∙◌, Bool, true, false, List, [], ◌∷◌, map, keep, All, Bool-cases,
  inl, inr, ◌==◌, ne→==, if◌then◌else◌, ==_refl,
}
use orgfin_diploma.Models.{SubscriptionRow}
use orgfin_diploma.Repositories.Subscriptions.{change}

-- The primary key: no id occurs twice.
abbrev pub HasUniqueIds : List SubscriptionRow → Type 0
HasUniqueIds [] = Unit
HasUniqueIds (r ∷ rs) = All (λ x. x.id ≢ r.id) rs × HasUniqueIds rs

change-absent :
    (i : ℕ) (f : SubscriptionRow → SubscriptionRow) (rs : List SubscriptionRow)
    → All (λ x. x.id ≢ i) rs
    → change i f rs ≡ rs
unfolding change
change-absent i f [] h = refl
change-absent i f (r ∷ rs) h = rw (ne→== r.id i h.0, change-absent i f rs h.1)

module _ (g : SubscriptionRow → SubscriptionRow → SubscriptionRow) where
  -- The UPDATE of each row that was found, in turn.
  unfoldable pub sweep : List SubscriptionRow → List SubscriptionRow → List SubscriptionRow
  sweep [] rows = rows
  sweep (x ∷ xs) rows = sweep xs (change x.id (g x) rows)

  sweep-past :
      (xs : List SubscriptionRow) (r : SubscriptionRow) (rows : List SubscriptionRow)
      → All (λ x. x.id ≢ r.id) xs
      → sweep xs (r ∷ rows) ≡ r ∷ sweep xs rows
  unfolding sweep change
  sweep-past [] r rows h = refl
  sweep-past (x ∷ xs) r rows h =
      rw (ne→== r.id x.id (λ e. h.0 (sym e))) (sweep-past xs r (change x.id (g x) rows) h.1)

-- An UPDATE that changes nothing.
pub change-same : (i : ℕ) (rs : List SubscriptionRow) → change i (λ r. r) rs ≡ rs
unfolding change
change-same i [] = refl
change-same i (r ∷ rs) = rw (change-same i rs) (if_same (r.id == i) r rs)
  where
    if_same :
        (b : Bool) (x : SubscriptionRow) (xs : List SubscriptionRow)
        → (if b then x else x) ∷ xs ≡ x ∷ xs
    if_same true x xs = refl
    if_same false x xs = refl

All-keep :
    (P : SubscriptionRow → Type 0) (p : SubscriptionRow → Bool) (rs : List SubscriptionRow)
    → All P rs
    → All P (keep p rs)
All-keep P p [] h = tt
All-keep P p (r ∷ rs) h = elim (Bool-cases (p r)) [
  | inl e ↦ rw e (h.0, All-keep P p rs h.1)
  | inr e ↦ rw e (All-keep P p rs h.1)
]

-- Updating each row that passes a test is one pass over the table.
pub sweep-keep :
    (g : SubscriptionRow → SubscriptionRow → SubscriptionRow) (p : SubscriptionRow → Bool)
    → ((x r : SubscriptionRow) → (g x r).id ≡ r.id)
    → (rows : List SubscriptionRow) → HasUniqueIds rows
    → sweep g (keep p rows) rows ≡ map (λ r. if p r then g r r else r) rows
unfolding sweep change
sweep-keep g p same_id [] h = refl
sweep-keep g p same_id (r ∷ rows) h = elim (Bool-cases (p r)) [
  | inl e ↦ rw e (hit ∙ ap (λ t. g r r ∷ t) (sweep-keep g p same_id rows h.1))
  | inr e ↦ rw e (
      sweep-past g (keep p rows) r rows (All-keep (λ x. x.id ≢ r.id) p rows h.0)
      ∙ ap (λ t. r ∷ t) (sweep-keep g p same_id rows h.1))
]
  where
    hit : sweep g (keep p rows) (change r.id (g r) (r ∷ rows)) ≡ g r r ∷ sweep g (keep p rows) rows
    hit = rw (change-absent r.id (g r) rows h.0) (
        rw (==_refl r.id) (
          sweep-past g (keep p rows) (g r r) rows
            (rw (same_id r r) (All-keep (λ x. x.id ≢ r.id) p rows h.0))))
