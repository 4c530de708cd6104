-- ===== src/Reconcile/Settles.antt =====
-- The effect of the compensating rows: every account of the run agrees with its rows afterwards.
use orgfin_diploma.TransactionService.Recalc.Insert.{recalculate-insert}
use orgfin_diploma.TransactionService.Create.Settled.{
  for_recalc-other, for_recalc-own, for_recalc-IsSorted,
}
use orgfin_diploma.Repositories.Transactions.Sorted.{All-sort, All-keep}
use orgfin_diploma.AccountService.Adjust.{IsPast, past_ordered}
use orgfin_diploma.Exec.{ok, ◌>>=◌}
use orgfin_diploma.TransactionService.Recalc.Settled.{implied_balance}
use orgfin_diploma.Repositories.Transactions.{for_recalc, stored, of_account}
use orgfin_diploma.Models.{Db, Account, Transaction, Time}
use orgfin_diploma.TransactionService.Recalc.{next_balance}
use orgfin_diploma.Reconcile.{Divergence, insert_all, compensating_row, insert_compensating_row}
use orgfin_diploma.Prelude.{
  ℕ, ℤ, ◌+◌, ◌≡◌, ◌≢◌, refl, sym, ◌∙◌, ◌⊎◌, inl, inr, true, some, List, [], ◌∷◌, All, All-map_proof,
  arith, String, subst, ==_refl, ne→==,
}
use orgfin_diploma.Repositories.Accounts.Sum as Sum

-- The table with one compensating row.
abbrev row_of_divergence : String → Time → Divergence → Db → Transaction
row_of_divergence run_id now d s = stored s (compensating_row run_id now d)

inserted_one : String → Time → Divergence → Db → Db
inserted_one run_id now d s = record s {
  transactions = row_of_divergence run_id now d s ∷ s.transactions;
  next_transaction_id = s.next_transaction_id + 1;
}

pub inserted : String → Time → List Divergence → Db → Db
inserted run_id now [] s = s
inserted run_id now (d ∷ rest) s = inserted run_id now rest (inserted_one run_id now d s)

abbrev pub divergence_of : Account → ℤ → Divergence
divergence_of a c = record {
  account_id = a.id;
  user_id = a.user_id;
  name = a.name;
  stored_balance = a.balance;
  recalculated = c;
}

-- What detectDivergences finds: the accounts that agree are passed over, the others are listed.
abbrev pub Detected : Db → List Account → List Divergence → Type 0
Detected s [] ds = ds ≡ []
Detected s (a ∷ rest) ds =
    ((implied_balance a.id a s ≡ ok a.balance) × Detected s rest ds)
    ⊎ ((c : ℤ) × (others : List Divergence) × (ds ≡ divergence_of a c ∷ others)
        × (implied_balance a.id a s ≡ ok c)
        × Detected s rest others)

-- An account whose rows imply a balance.
abbrev pub HasBalance : Db → Account → Type 0
HasBalance s a = (c : ℤ) × (implied_balance a.id a s ≡ ok c)

All-for_recalc :
    (P : Transaction → Type 0) (a : ℕ) (ts : List Transaction) → All P ts → All P (for_recalc a ts)
unfolding for_recalc
All-for_recalc P a ts h = All-sort P _ (All-keep P (of_account a) ts h)

-- An adjustment sets its target, whatever the balance was.
target_next :
    (b c : ℤ) (t : Transaction)
    → t.is_adjustment ≡ true
    → t.new_balance ≡ some b
    → next_balance c t ≡ ok b
unfolding next_balance
target_next b c t adj target = rw (adj, target)

module _ (run_id : String) (now : Time) where
  pub insert_run :
      (ds : List Divergence) (s : Db)
      → insert_all run_id now ds [] s ≡ (ok tt, [], inserted run_id now ds s)
  unfolding insert_all insert_compensating_row inserted inserted_one ◌>>=◌
  insert_run [] s = refl
  insert_run (d ∷ rest) s = insert_run rest _

  pub inserted_accounts :
      (ds : List Divergence) (s : Db) → (inserted run_id now ds s).accounts ≡ s.accounts
  unfolding inserted inserted_one
  inserted_accounts [] s = refl
  inserted_accounts (d ∷ rest) s = inserted_accounts rest _

  other_implied :
      (d : Divergence) (a : Account) (s : Db)
      → d.account_id ≢ a.id
      → implied_balance a.id a (inserted_one run_id now d s) ≡ implied_balance a.id a s
  unfolding inserted_one compensating_row
  other_implied d a s other = rw (
      for_recalc-other a.id (row_of_divergence run_id now d s) s.transactions
        (rw (ne→== d.account_id a.id other)))

  self_implied :
      (a : Account) (b c : ℤ) (s : Db)
      → implied_balance a.id a s ≡ ok c
      → All (IsPast now s) s.transactions
      → implied_balance a.id a (inserted_one run_id now (divergence_of a b) s) ≡ ok a.balance
  unfolding inserted_one compensating_row
  self_implied a b c s implied past =
      rw
        (for_recalc-own a.id (row_of_divergence run_id now (divergence_of a b) s) s.transactions
          (rw (==_refl a.id)))
        (recalculate-insert (row_of_divergence run_id now (divergence_of a b) s) a.initial_balance c
            _ (for_recalc-IsSorted a.id s.transactions)
            (All-map_proof
              (λ t p _.
                past_ordered (row_of_divergence run_id now (divergence_of a b) s) t refl p.0 p.1)
              _ (All-for_recalc (IsPast now s) a.id s.transactions past))
            implied
          ∙ target_next a.balance c _ refl refl)

  inserted-IsPast :
      (d : Divergence) (s : Db)
      → All (IsPast now s) s.transactions
      → All (IsPast now (inserted_one run_id now d s)) (inserted_one run_id now d s).transactions
  unfolding inserted_one compensating_row
  inserted-IsPast d s past =
      ((omega arith, ground arith), All-map_proof (λ t p. (omega (arith, p.0), p.1)) _ past)

  others_implied :
      (ds : List Divergence) (a : Account) (s : Db)
      → All (λ d. d.account_id ≢ a.id) ds
      → implied_balance a.id a (inserted run_id now ds s) ≡ implied_balance a.id a s
  unfolding inserted
  others_implied [] a s h = refl
  others_implied (d ∷ rest) a s h = others_implied rest a _ h.1 ∙ other_implied d a s h.0

  Detected-others :
      (d : Divergence) (s : Db) (accounts : List Account) (ds : List Divergence)
      → All (λ a. d.account_id ≢ a.id) accounts
      → Detected s accounts ds
      → Detected (inserted_one run_id now d s) accounts ds
  Detected-others d s [] ds h e = e
  Detected-others d s (a ∷ rest) ds h e = elim e [
    | inl (agrees, more) ↦
        inl (other_implied d a s h.0 ∙ agrees, Detected-others d s rest ds h.1 more)
    | inr (c, others, listed, implied, more) ↦ inr (
      c,
      others,
      listed,
      other_implied d a s h.0 ∙ implied,
      Detected-others d s rest others h.1 more,
    )
  ]

  -- A divergence names an account of the run.
  Detected-absent :
      (i : ℕ) (s : Db) (accounts : List Account) (ds : List Divergence)
      → All (λ a. a.id ≢ i) accounts
      → Detected s accounts ds
      → All (λ d. d.account_id ≢ i) ds
  Detected-absent i s [] ds h e = subst (λ l. All (λ d. d.account_id ≢ i) l) (sym e) tt
  Detected-absent i s (a ∷ rest) ds h e = elim e [
    | inl (agrees, more) ↦ Detected-absent i s rest ds h.1 more
    | inr (c, others, listed, implied, more) ↦
        subst (λ l. All (λ d. d.account_id ≢ i) l) (sym listed)
          (h.0, Detected-absent i s rest others h.1 more)
  ]

  -- The rows of all divergences make every account of the run agree.
  pub insert_settles :
      (accounts : List Account) (ds : List Divergence) (s : Db)
      → Detected s accounts ds
      → Sum.HasUniqueIds accounts
      → All (IsPast now s) s.transactions
      → All (λ a. implied_balance a.id a (inserted run_id now ds s) ≡ ok a.balance) accounts
  unfolding inserted
  insert_settles [] ds s e unique past = tt
  insert_settles (a ∷ rest) ds s e unique past = elim e [
    | inl (agrees, more) ↦ (
      others_implied ds a s (Detected-absent a.id s rest ds unique.0 more) ∙ agrees,
      insert_settles rest ds s more unique.1 past,
    )
    | inr (c, others, listed, implied, more) ↦
        let unlike = All-map_proof (λ b p q. p (sym q)) rest unique.0 in
        subst
          (λ l.
            All (λ b. implied_balance b.id b (inserted run_id now l s) ≡ ok b.balance) (a ∷ rest))
          (sym listed)
          (
            others_implied others a _ (Detected-absent a.id s rest others unique.0 more)
                ∙ self_implied a c c s implied past,
            insert_settles rest others _
                (Detected-others (divergence_of a c) s rest others unlike more) unique.1
                (inserted-IsPast (divergence_of a c) s past),
          )
  ]
