-- ===== src/TransactionService/Recalc/Alike.antt =====
-- Rows that the recalculation cannot tell apart: they agree in all that it reads. The balances
-- that it writes change no more than that.
use orgfin_diploma.Prelude.{
  ℕ, ℤ, ◌≡◌, refl, ap, inl, inr, true, List, [], ◌∷◌, arith, Bool-cases, keep,
}
use mathlib.Core.Path.{fun_ext}
use orgfin_diploma.Models.{Transaction}
use orgfin_diploma.Repositories.Transactions.{ordered, insert_sorted, sort, for_recalc, of_account}
use orgfin_diploma.TransactionService.Recalc.{
  next_balance, bind_result, recalculate_from_transactions,
}

pub record SameEffect (t u : Transaction) : Type 0 where
  pub same_id : t.id ≡ u.id
  pub same_account : t.account_id ≡ u.account_id
  pub same_deleted : t.is_deleted ≡ u.is_deleted
  pub same_date : t.date_time ≡ u.date_time
  pub same_amount : t.amount ≡ u.amount
  pub same_income : t.is_income ≡ u.is_income
  pub same_adjustment : t.is_adjustment ≡ u.is_adjustment
  pub same_target : t.is_adjustment ≡ true → t.new_balance ≡ u.new_balance

pub SameEffect-refl : (t : Transaction) → SameEffect t t
SameEffect-refl t = ground arith

SameEffect-trans : {t u v : Transaction} → SameEffect t u → SameEffect u v → SameEffect t v
SameEffect-trans p q = ground arith

abbrev pub Alike : List Transaction → List Transaction → Type 0
Alike [] [] = Unit
Alike (t ∷ ts) (u ∷ us) = SameEffect t u × Alike ts us
Alike _ _ = ⊥

pub Alike-refl : (ts : List Transaction) → Alike ts ts
Alike-refl [] = tt
Alike-refl (t ∷ ts) = (SameEffect-refl t, Alike-refl ts)

pub Alike-trans : (ts us vs : List Transaction) → Alike ts us → Alike us vs → Alike ts vs
Alike-trans [] [] [] p q = tt
Alike-trans [] [] (v ∷ vs) p q = q
Alike-trans [] (u ∷ us) vs p q = absurd p
Alike-trans (t ∷ ts) [] vs p q = absurd p
Alike-trans (t ∷ ts) (u ∷ us) [] p q = absurd q
Alike-trans (t ∷ ts) (u ∷ us) (v ∷ vs) p q =
    (SameEffect-trans p.0 q.0, Alike-trans ts us vs p.1 q.1)

ordered-SameEffect :
    (t u v w : Transaction) → SameEffect t u → SameEffect v w → ordered t v ≡ ordered u w
unfolding ordered
ordered-SameEffect t u v w p q = rw (p.same_id, p.same_date, q.same_id, q.same_date)

insert_sorted-Alike :
    (t u : Transaction) (ts us : List Transaction)
    → SameEffect t u
    → Alike ts us
    → Alike (insert_sorted t ts) (insert_sorted u us)
unfolding insert_sorted
insert_sorted-Alike t u [] [] p h = (p, tt)
insert_sorted-Alike t u [] (w ∷ us) p h = absurd h
insert_sorted-Alike t u (v ∷ ts) [] p h = absurd h
insert_sorted-Alike t u (v ∷ ts) (w ∷ us) p h = elim (Bool-cases (ordered u w)) [
  | inl e ↦ rw (ordered-SameEffect t u v w p h.0, e) (p, h)
  | inr e ↦ rw (ordered-SameEffect t u v w p h.0, e) (h.0, insert_sorted-Alike t u ts us p h.1)
]

sort-Alike : (ts us : List Transaction) → Alike ts us → Alike (sort ts) (sort us)
unfolding sort
sort-Alike [] [] h = tt
sort-Alike [] (u ∷ us) h = absurd h
sort-Alike (t ∷ ts) [] h = absurd h
sort-Alike (t ∷ ts) (u ∷ us) h =
    insert_sorted-Alike t u (sort ts) (sort us) h.0 (sort-Alike ts us h.1)

of_account-SameEffect :
    (a : ℕ) (t u : Transaction) → SameEffect t u → of_account a t ≡ of_account a u
of_account-SameEffect a t u p = rw (p.same_account, p.same_deleted)

keep-Alike :
    (a : ℕ) (ts us : List Transaction)
    → Alike ts us
    → Alike (keep (of_account a) ts) (keep (of_account a) us)
keep-Alike a [] [] h = tt
keep-Alike a [] (u ∷ us) h = absurd h
keep-Alike a (t ∷ ts) [] h = absurd h
keep-Alike a (t ∷ ts) (u ∷ us) h = elim (Bool-cases (of_account a u)) [
  | inl e ↦ rw (of_account-SameEffect a t u h.0, e) (h.0, keep-Alike a ts us h.1)
  | inr e ↦ rw (of_account-SameEffect a t u h.0, e) (keep-Alike a ts us h.1)
]

pub for_recalc-Alike :
    (a : ℕ) (ts us : List Transaction) → Alike ts us → Alike (for_recalc a ts) (for_recalc a us)
unfolding for_recalc
for_recalc-Alike a ts us h = sort-Alike _ _ (keep-Alike a ts us h)

pub next_balance-SameEffect :
    (b : ℤ) (t u : Transaction) → SameEffect t u → next_balance b t ≡ next_balance b u
unfolding next_balance
next_balance-SameEffect b t u p = ground arith

-- Alike rows are recalculated alike.
pub recalculate-Alike :
    (b : ℤ) (ts us : List Transaction)
    → Alike ts us
    → recalculate_from_transactions b ts ≡ recalculate_from_transactions b us
unfolding recalculate_from_transactions
recalculate-Alike b [] [] h = refl
recalculate-Alike b [] (u ∷ us) h = absurd h
recalculate-Alike b (t ∷ ts) [] h = absurd h
recalculate-Alike b (t ∷ ts) (u ∷ us) h =
    rw (next_balance-SameEffect b t u h.0)
      (ap (bind_result (next_balance b u)) (fun_ext (λ c. recalculate-Alike c ts us h.1)))
