-- ===== src/Repositories/Accounts/Sum.antt =====
-- The sum of the stored balances, under an UPDATE of one balance.
use orgfin_diploma.Prelude.{
  ℕ, ℤ, pos, ◌+ℤ◌, int_laws, ◌≡◌, refl, ◌≢◌, inl, inr, none, some, List, [], ◌∷◌, arith, All,
  Bool-cases, subst, ne→==, ◌==◌, ap, ==→eq, true, false,
}
use orgfin_diploma.Models.{Account}
use orgfin_diploma.Repositories.Accounts.{find, change}
use orgfin_diploma.Repositories.Accounts.Lookup.{set_balance}

-- The primary key of the accounts.
abbrev pub HasUniqueIds : List Account → Type 0
HasUniqueIds [] = Unit
HasUniqueIds (a ∷ rows) = All (λ b. b.id ≢ a.id) rows × HasUniqueIds rows

unfoldable pub balance_sum : List Account → ℤ
balance_sum [] = pos 0
balance_sum (a ∷ rows) = a.balance +ℤ balance_sum rows

change_absent :
    (i : ℕ) (b : ℤ) (rows : List Account)
    → All (λ c. c.id ≢ i) rows
    → change i (set_balance b) rows ≡ rows
unfolding change
change_absent i b [] h = refl
change_absent i b (c ∷ rows) h =
    rw (ne→== c.id i h.0) (ap (λ r. c ∷ r) (change_absent i b rows h.1))

find_absent : (i : ℕ) (rows : List Account) → All (λ c. c.id ≢ i) rows → find i rows ≡ none
unfolding find
find_absent i [] h = refl
find_absent i (c ∷ rows) h = rw (ne→== c.id i h.0) (find_absent i rows h.1)

absent_of :
    (i : ℕ) (a : Account) (rows : List Account)
    → a.id ≡ i
    → All (λ c. c.id ≢ a.id) rows
    → All (λ c. c.id ≢ i) rows
absent_of i a rows e h = subst (λ j. All (λ c. c.id ≢ j) rows) e h

found_head :
    (i : ℕ) (c : Account) (rows : List Account) {a : Account}
    → (c.id == i) ≡ true
    → All (λ d. d.id ≢ i) rows
    → find i (c ∷ rows) ≡ some a
    → c ≡ a
unfolding find
found_head i c rows same absent h = ground (arith, find_absent i rows absent)

found_tail :
    (i : ℕ) (c : Account) (rows : List Account) {a : Account}
    → (c.id == i) ≡ false
    → find i (c ∷ rows) ≡ some a
    → find i rows ≡ some a
unfolding find
found_tail i c rows other h = rw other at h

pub sum-change :
    (i : ℕ) (b : ℤ) (rows : List Account) {a : Account}
    → HasUniqueIds rows
    → find i rows ≡ some a
    → balance_sum (change i (set_balance b) rows) +ℤ a.balance ≡ balance_sum rows +ℤ b
unfolding balance_sum change find
sum-change i b [] u h = cc
sum-change i b (c ∷ rows) {a} u h = elim (Bool-cases (c.id == i)) [
  | inl same ↦
      let absent = absent_of i c rows (==→eq c.id i same) u.0 in
      rw (same, change_absent i b rows absent)
        (rw (found_head i c rows same absent h) (omega int_laws))
  | inr other ↦ rw other (grind (int_laws, sum-change i b rows u.1 (found_tail i c rows other h)))
]

All-change :
    (i : ℕ) (b : ℤ) (j : ℕ) (rows : List Account)
    → All (λ c. c.id ≢ j) rows
    → All (λ c. c.id ≢ j) (change i (set_balance b) rows)
unfolding change
All-change i b j [] h = tt
All-change i b j (c ∷ rows) h = elim (Bool-cases (c.id == i)) [
  | inl same ↦ rw same (h.0, All-change i b j rows h.1)
  | inr other ↦ rw other (h.0, All-change i b j rows h.1)
]

pub change-HasUniqueIds :
    (i : ℕ) (b : ℤ) (rows : List Account)
    → HasUniqueIds rows
    → HasUniqueIds (change i (set_balance b) rows)
unfolding change
change-HasUniqueIds i b [] h = tt
change-HasUniqueIds i b (c ∷ rows) h = elim (Bool-cases (c.id == i)) [
  | inl same ↦ rw same (All-change i b c.id rows h.0, change-HasUniqueIds i b rows h.1)
  | inr other ↦ rw other (All-change i b c.id rows h.0, change-HasUniqueIds i b rows h.1)
]
