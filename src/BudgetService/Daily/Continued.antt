-- ===== src/BudgetService/Daily/Continued.antt =====
-- A round of DailyProcessing of backend/internal/services/budgets/service.go where calls of the
-- database fail: each step leaves a repeating budget in the table, or its copy.
use orgfin_diploma.Exec.Keeps.{Keeps, Keeps-bind, Keeps-statement}
use orgfin_diploma.BudgetService.Daily.{copy_of, process}
use orgfin_diploma.Repositories.Budgets.{
  inserted_row, change, archived_row, store, fits, scanned, joined, is_some, earlier_end,
  is_outdated,
}
use orgfin_diploma.Exec.{
  ◌>>=◌, Outcome, Exec, Faults, ok, err, ◌>>◌, continue, inserting, statement,
}
use orgfin_diploma.Models.{Db, Budget}
use orgfin_diploma.Repositories.Budgets
use orgfin_diploma.Prelude.{
  ℕ, ◌≤◌, List, ◌∷◌, ◌⊎◌, ◌≢◌, ◌≡◌, inl, [], if◌then◌else◌, ◌==◌, subst, sym, ne→==, inr, Bool, ◌<◌,
  ◌+◌, arith, true, false, refl, HasRow,
}

HasRow-change :
    (b : Budget) (i : ℕ) (f : Budget → Budget) (bs : List Budget)
    → b.id ≢ i
    → HasRow b bs
    → HasRow b (change i f bs)
HasRow-change b i f [] ne h = h
HasRow-change b i f (c ∷ cs) ne (inl e) = inl (same_row c e)
  where
    same_row : (c : Budget) → c ≡ b → (if c.id == i then f c else c) ≡ b
    same_row c e = subst (λ x. (if x.id == i then f x else x) ≡ b) (sym e) (rw (ne→== b.id i ne))
HasRow-change b i f (c ∷ cs) ne (inr h) = inr (HasRow-change b i f cs ne h)

-- A budget is still in the table as it was, or a copy is, with an id that was new.
abbrev pub HasCopy : Budget → ℕ → Db → Type 0
HasCopy b n t = (i : ℕ) × (n ≤ i) × HasRow (inserted_row (copy_of b) i) t.budgets

abbrev pub IsContinued : Budget → ℕ → Db → Type 0
IsContinued b n t = (n ≤ t.next_budget_id) × (HasRow b t.budgets ⊎ HasCopy b n t)

abbrev IsCopied : Budget → ℕ → Db → Type 0
IsCopied b n t = (n ≤ t.next_budget_id) × HasCopy b n t

-- What holds after a step, by its result.
abbrev After : {A : Type 0} → (Db → Type 0) → (Db → Type 0) → Outcome A → Type 0
After Q P (ok a, fs, s) = Q s
After Q P (err e, fs, s) = P s

Keeps-then :
    {A B : Type 0} {P Q : Db → Type 0} (m : Exec A) (k : Exec B)
    → ((fs : Faults) (s : Db) → P s → After Q P (m fs s))
    → ((fs : Faults) (s : Db) → Q s → P (k fs s).2)
    → Keeps P (m >> k)
unfolding ◌>>=◌
Keeps-then {A = A} {P = P} {Q = Q} m k hm hk = record { at = λ fs s p. go (m fs s) (hm fs s p) }
  where
    go : (o : Outcome A) → After Q P o → P (continue o.0 (λ _. k) o.1 o.2).2
    go (ok a, fs, s) h = hk fs s h
    go (err e, fs, s) h = h

-- A create: the row is in the table, with the next id, or nothing is written.
abbrev added : Budget → Db → Db
added c s = record s {
  budgets = inserted_row c s.next_budget_id ∷ s.budgets;
  next_budget_id = s.next_budget_id + 1;
}

create-After :
    (P Q : Db → Type 0) (c : Budget)
    → ((s : Db) → P s → Q (added c s))
    → (fs : Faults) (s : Db) → P s
    → After Q P (Budgets.create c fs s)
unfolding Budgets.create inserting
create-After P Q c h fs s p = go (fits c) fs
  where
    go :
        (b : Bool) (fs : Faults)
        → After Q P (inserting (λ t. store b (inserted_row c t.next_budget_id) t) fs s)
    go true [] = h s p
    go false [] = p
    go true (false ∷ fs) = h s p
    go false (false ∷ fs) = p
    go true (true ∷ fs) = p
    go false (true ∷ fs) = p

module _ (b : Budget) (n : ℕ) (old : b.id < n) where
  IsContinued-archive : (i : ℕ) → b.id ≢ i → i < n → Keeps (IsContinued b n) (Budgets.archive i)
  unfolding Budgets.archive
  IsContinued-archive i ne lt = Keeps-statement _ (λ s p. (p.0, still s p.1))
    where
      still :
          (s : Db)
          → HasRow b s.budgets ⊎ HasCopy b n s
          → HasRow b (change i archived_row s.budgets)
            ⊎ ((j : ℕ) × (n ≤ j)
                × HasRow (inserted_row (copy_of b) j) (change i archived_row s.budgets))
      still s (inl h) = inl (HasRow-change b i archived_row s.budgets ne h)
      still s (inr (j, le, h)) = inr (
        j,
        le,
        HasRow-change (inserted_row (copy_of b) j) i archived_row s.budgets
            (λ e. absurd (omega (arith, e, le, lt))) h,
      )

  IsCopied-archive :
      (fs : Faults) (s : Db) → IsCopied b n s → IsContinued b n (Budgets.archive b.id fs s).2
  unfolding Budgets.archive statement
  IsCopied-archive fs s (le, (j, later, h)) = go fs
    where
      moved : HasRow (inserted_row (copy_of b) j) (change b.id archived_row s.budgets)
      moved =
          HasRow-change (inserted_row (copy_of b) j) b.id archived_row s.budgets
            (λ e. absurd (omega (arith, e, later, old))) h

      go : (fs : Faults) → IsContinued b n (Budgets.archive b.id fs s).2
      go [] = (le, inr (j, later, moved))
      go (false ∷ fs) = (le, inr (j, later, moved))
      go (true ∷ fs) = (le, inr (j, later, h))

  IsContinued-create : (c : Budget) → Keeps (IsContinued b n) (Budgets.create c)
  IsContinued-create c = record {
    at = λ fs s p.
        go (Budgets.create c fs s) (create-After (IsContinued b n) (IsContinued b n) c more fs s p);
  }
    where
      more : (s : Db) → IsContinued b n s → IsContinued b n (added c s)
      more s (le, inl h) = (omega (arith, le), inl (inr h))
      more s (le, inr (j, later, h)) = (omega (arith, le), inr (j, later, inr h))

      go : (o : Outcome Budget) → After (IsContinued b n) (IsContinued b n) o → IsContinued b n o.2
      go (ok a, fs, s) h = h
      go (err e, fs, s) h = h

  copied : (s : Db) → IsContinued b n s → IsCopied b n (added (copy_of b) s)
  copied s (le, h) = (omega (arith, le), (s.next_budget_id, le, inl refl))

  -- The round of another budget, and of this one.
  pub IsContinued-other :
      (y : Budget) → y.id ≢ b.id → y.id < n → Keeps (IsContinued b n) (process y)
  unfolding process
  IsContinued-other y ne lt = go y.repeat
    where
      archive : Keeps (IsContinued b n) (Budgets.archive y.id)
      archive = IsContinued-archive y.id (λ e. ne (sym e)) lt

      go :
          (r : Bool)
          → Keeps (IsContinued b n) (
              if r
              then (Budgets.create (copy_of y) >> Budgets.archive y.id)
              else Budgets.archive y.id)
      go true = Keeps-bind _ _ (IsContinued-create (copy_of y)) (λ _. archive)
      go false = archive

  pub IsContinued-own : b.repeat ≡ true → Keeps (IsContinued b n) (process b)
  unfolding process
  IsContinued-own repeats =
      subst
        (λ r. Keeps (IsContinued b n) (
          if r then (Budgets.create (copy_of b) >> Budgets.archive b.id) else Budgets.archive b.id))
        (sym repeats)
        (Keeps-then (Budgets.create (copy_of b)) (Budgets.archive b.id)
          (create-After (IsContinued b n) (IsCopied b n) (copy_of b) copied) IsCopied-archive)
