-- ===== src/TransactionService/Recalc/Insert.antt =====
-- What one more row does to the recalculated balance.
use mathlib.Core.Path.{fun_ext}
use orgfin_diploma.Prelude.{
  ℤ, ◌+ℤ◌, ◌-ℤ◌, ◌≡◌, refl, List, [], ◌∷◌, arith, All, Bool-cases, false, int_laws, ◌||◌, true,
  if◌then◌else◌, ◌⊎◌, inl, ◌∙◌, inr, sym, ap,
}
use orgfin_diploma.Models.{Transaction}
use orgfin_diploma.Exec.{Result, ok, err, Result-cases}
use orgfin_diploma.Repositories.Transactions.{ordered, insert_sorted}
use orgfin_diploma.Repositories.Transactions.Sorted.{IsSorted, ordered_trans}
use orgfin_diploma.TransactionService.Recalc.{
  next_balance, recalculate_from_transactions, bind_result,
}

-- The balance after a row that is no adjustment.
abbrev pub shift : Transaction → ℤ → ℤ
shift t b = if t.is_income then b +ℤ t.amount else b -ℤ t.amount

pub next_balance-regular :
    (b : ℤ) (t : Transaction) → t.is_adjustment ≡ false → next_balance b t ≡ ok (shift t b)
unfolding next_balance
next_balance-regular b t h = ground arith

shift_comm : (t u : Transaction) (b : ℤ) → shift t (shift u b) ≡ shift u (shift t b)
shift_comm t u b = grind int_laws

abbrev NoAdjustment : List Transaction → Type 0
NoAdjustment ts = All (λ t. t.is_adjustment ≡ false) ts

recalculate_nil : (b : ℤ) → recalculate_from_transactions b [] ≡ ok b
unfolding recalculate_from_transactions
recalculate_nil b = refl

-- A step of the recalculation, from a row that yields a balance.
recalculate_step :
    (b c : ℤ) (t : Transaction) (ts : List Transaction)
    → next_balance b t ≡ ok c
    → recalculate_from_transactions b (t ∷ ts) ≡ recalculate_from_transactions c ts
unfolding recalculate_from_transactions
recalculate_step b c t ts h = rw h

recalculate_cong :
    (b : ℤ) (t : Transaction) (ts us : List Transaction)
    → ((x : ℤ) → recalculate_from_transactions x ts ≡ recalculate_from_transactions x us)
    → recalculate_from_transactions b (t ∷ ts) ≡ recalculate_from_transactions b (t ∷ us)
unfolding recalculate_from_transactions
recalculate_cong b t ts us h = ap (bind_result (next_balance b t)) (fun_ext h)

-- Rows with no adjustment among them carry a difference along.
recalculate-shift :
    (n : Transaction) (b c : ℤ) (ts : List Transaction)
    → NoAdjustment ts
    → recalculate_from_transactions b ts ≡ ok c
    → recalculate_from_transactions (shift n b) ts ≡ ok (shift n c)
recalculate-shift n b c [] h e = cc (recalculate_nil b, recalculate_nil (shift n b))
recalculate-shift n b c (t ∷ ts) h e =
    rw (recalculate_step (shift n b) (shift t (shift n b)) t ts (next_balance-regular _ t h.0)) (
      rw (shift_comm t n b) (
        recalculate-shift n (shift t b) c ts h.1
          (rw (recalculate_step b (shift t b) t ts (next_balance-regular b t h.0)) at e)))

-- After an adjustment the balance before it is forgotten.
abbrev pub HasAdjustment : List Transaction → Type 0
HasAdjustment [] = ⊥
HasAdjustment (t ∷ ts) = (t.is_adjustment ≡ true) ⊎ HasAdjustment ts

next_balance-adjustment :
    (b c : ℤ) (t : Transaction) → t.is_adjustment ≡ true → next_balance b t ≡ next_balance c t
unfolding next_balance
next_balance-adjustment b c t h = ground arith

recalculate-forgets :
    (b c : ℤ) (ts : List Transaction)
    → HasAdjustment ts
    → recalculate_from_transactions b ts ≡ recalculate_from_transactions c ts
unfolding recalculate_from_transactions
recalculate-forgets b c [] h = absurd h
recalculate-forgets b c (t ∷ ts) h = elim (Bool-cases t.is_adjustment) [
  | inl adj ↦ rw (next_balance-adjustment b c t adj)
  | inr reg ↦ rw (next_balance-regular b t reg) (
      rw (next_balance-regular c t reg) (
        recalculate-forgets (shift t b) (shift t c) ts
          (elim h [ inl adj ↦ cc | inr later ↦ later ])))
]

-- A row `t` that may not stand behind the row `n`: an adjustment, or any row if `n` is one.
abbrev pub StandsBefore : Transaction → Transaction → Type 0
StandsBefore n t = (t.is_adjustment || n.is_adjustment) ≡ true → ordered n t ≡ false

bind_result_ok : (r : Result ℤ) → bind_result r ok ≡ r
bind_result_ok (ok a) = refl
bind_result_ok (err e) = refl

-- A row whose date lets it stand before `t` and the rows behind `t`.
behind_regular :
    (n t : Transaction) (ts : List Transaction)
    → ordered n t ≡ true
    → All (λ u. ordered t u ≡ true) ts
    → All (StandsBefore n) ts
    → NoAdjustment ts
behind_regular n t [] o s h = tt
behind_regular n t (u ∷ us) o s h =
    (ground (arith, h.0, ordered_trans n t u o s.0), behind_regular n t us o s.1 h.1)

-- A row that no adjustment follows, or an adjustment that no row follows, acts last.
pub recalculate-insert :
    (n : Transaction) (b c : ℤ) (ts : List Transaction)
    → IsSorted ts
    → All (StandsBefore n) ts
    → recalculate_from_transactions b ts ≡ ok c
    → recalculate_from_transactions b (insert_sorted n ts) ≡ next_balance c n
unfolding insert_sorted recalculate_from_transactions
recalculate-insert n b c [] s h e = bind_result_ok (next_balance b n) ∙ cc
recalculate-insert n b c (t ∷ ts) s h e = elim (Bool-cases (ordered n t)) [
  | inl o ↦
      let reg_n : n.is_adjustment ≡ false = ground (arith, h.0) in
      let reg_t : t.is_adjustment ≡ false = ground (arith, h.0) in
      rw o (
        rw (next_balance-regular b n reg_n) (
          recalculate-shift n b c (t ∷ ts) (reg_t, behind_regular n t ts o s.0 h.1) e
          ∙ sym (next_balance-regular c n reg_n)))
  | inr o ↦ rw o (elim (Result-cases (next_balance b t)) [
    | inl (x, p) ↦ rw p (recalculate-insert n x c ts s.1 h.1 (rw p at e))
    | inr (x, p) ↦ let failed = (rw p at e) in cc
  ])
]

-- A row that stands before some adjustment.
abbrev pub PrecedesAdjustment : Transaction → List Transaction → Type 0
PrecedesAdjustment n [] = ⊥
PrecedesAdjustment n (t ∷ ts) =
    ((t.is_adjustment ≡ true) × (ordered n t ≡ true)) ⊎ PrecedesAdjustment n ts

PrecedesAdjustment-has :
    (n : Transaction) (ts : List Transaction) → PrecedesAdjustment n ts → HasAdjustment ts
PrecedesAdjustment-has n [] h = h
PrecedesAdjustment-has n (t ∷ ts) h = elim h [
  | inl now ↦ inl now.0
  | inr later ↦ inr (PrecedesAdjustment-has n ts later)
]

-- A regular row that an adjustment follows leaves no trace in the recalculated balance.
pub recalculate-insert_lost :
    (n : Transaction) (b : ℤ) (ts : List Transaction)
    → n.is_adjustment ≡ false
    → PrecedesAdjustment n ts
    → recalculate_from_transactions b (insert_sorted n ts) ≡ recalculate_from_transactions b ts
unfolding insert_sorted
recalculate-insert_lost n b [] reg h = absurd h
recalculate-insert_lost n b (t ∷ ts) reg h = elim (Bool-cases (ordered n t)) [
  | inl o ↦ rw o (
      recalculate_step b (shift n b) n (t ∷ ts) (next_balance-regular b n reg)
      ∙ recalculate-forgets (shift n b) b (t ∷ ts) (PrecedesAdjustment-has n (t ∷ ts) h))
  | inr o ↦ rw o (
      recalculate_cong b t (insert_sorted n ts) ts (λ x.
        recalculate-insert_lost n x ts reg (elim h [ inl now ↦ cc now.1 | inr later ↦ later ])))
]
