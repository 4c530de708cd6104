-- ===== src/Repositories/Accounts/Lookup.antt =====
-- What a lookup finds after an UPDATE of the accounts.
use orgfin_diploma.Prelude.{
  ℕ, ℤ, ◌≡◌, refl, inl, inr, ◌≢◌, none, some, List, [], ◌∷◌, arith, ◌==◌, Bool-cases, ◌&&◌, not,
  if◌then◌else◌,
}
use orgfin_diploma.Models.{Account}
use orgfin_diploma.Repositories.Accounts.{find, change}

abbrev pub set_balance : ℤ → Account → Account
set_balance b a = record a { balance = b }

pub find-change_self :
    (i : ℕ) (b : ℤ) (rows : List Account) {a : Account}
    → find i rows ≡ some a
    → find i (change i (set_balance b) rows) ≡ some (set_balance b a)
unfolding find change
find-change_self i b [] h = cc
find-change_self i b (c ∷ rows) {a} h = elim (Bool-cases (c.id == i)) [
  | inl e ↦ rw (e, e) (ground (arith, find-change_self i b rows {a = a}))
  | inr e ↦ rw (e, e) (ground (arith, find-change_self i b rows {a = a}))
]

pub find-change-none :
    (i : ℕ) (b : ℤ) (rows : List Account)
    → find i rows ≡ none
    → find i (change i (set_balance b) rows) ≡ none
unfolding find change
find-change-none i b [] h = refl
find-change-none i b (a ∷ rows) h = ground (arith, find-change-none i b rows)

pub find-change_ne :
    (i j : ℕ) (b : ℤ) (rows : List Account)
    → j ≢ i
    → find j (change i (set_balance b) rows) ≡ find j rows
unfolding find change
find-change_ne i j b [] h = refl
find-change_ne i j b (a ∷ rows) h = ground (arith, find-change_ne i j b rows h)

-- A row that is found has the id that was asked for.
pub find_id : (i : ℕ) (rows : List Account) {a : Account} → find i rows ≡ some a → a.id ≡ i
unfolding find
find_id i [] h = cc
find_id i (b ∷ rows) {a} h = ground (arith, find_id i rows {a = a})

-- An UPDATE that leaves the id and the deletion of a row.
pub find-change_kept :
    (i : ℕ) (f : Account → Account) (rows : List Account) {a : Account}
    → ((b : Account) → ((f b).id == i && not (f b).is_deleted) ≡ (b.id == i && not b.is_deleted))
    → find i rows ≡ some a
    → find i (change i f rows) ≡ some (f a)
unfolding find change
find-change_kept i f [] same h = cc
find-change_kept i f (b ∷ rows) {a} same h = elim (Bool-cases (b.id == i)) [
  | inl e ↦
      rw e (rw (same b) (rw e (here (λ k. find-change_kept i f rows {a = a} same k) (rw e at h))))
  | inr e ↦ rw e (rw e (find-change_kept i f rows {a = a} same (rw e at h)))
]
  where
    here :
        (find i rows ≡ some a → find i (change i f rows) ≡ some (f a))
        → (if not b.is_deleted then some b else find i rows) ≡ some a
        → (if not b.is_deleted then some (f b) else find i (change i f rows)) ≡ some (f a)
    here later k = elim (Bool-cases b.is_deleted) [
      | inl d ↦ rw d (later (rw d at k))
      | inr d ↦ rw d (cc (rw d at k))
    ]
