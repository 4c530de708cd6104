-- ===== src/Reconcile/Runs.antt =====
-- A whole run of the command without a fault: what it finds, and that it settles its accounts.
use orgfin_diploma.TransactionService.Recalc.Insert.{shift}
use orgfin_diploma.TransactionService.Recalc.{next_balance}
use orgfin_diploma.Reconcile.Settles.{
  HasBalance, insert_settles, Detected, inserted_accounts, divergence_of, insert_run, inserted,
}
use orgfin_diploma.AccountService.Adjust.{IsPast, signed}
use orgfin_diploma.Exec.{ok, ◌>>=◌, query, Result, row_of, err, Error, raise_if, ◌>>◌, pure}
use orgfin_diploma.TransactionService.Recalc.Settled.{implied_balance}
use orgfin_diploma.Models.{Db, Account, Time}
use orgfin_diploma.Reconcile.{
  load_accounts, detect_divergences, load_one_account, Divergence, load_transactions_for_recalc,
  insert_all, Options, find_live, sort_by_id, in_scope, run, compensating_row, amount, is_income,
  direction, diff,
}
use orgfin_diploma.Prelude.{
  ℤ, ◌≡◌, refl, sym, ◌∙◌, ap, inl, inr, true, false, Option, none, some, List, [], ◌∷◌, All, arith,
  Bool-cases, eqb_ℤ, eqb_ℤ_refl, ltb, String, int_laws, if◌then◌else◌, keep, ◌&&◌, not, ◌==◌,
}
use orgfin_diploma.Repositories.Accounts.Sum as Sum

same_balance : (b c : ℤ) → eqb_ℤ b c ≡ true → b ≡ c
same_balance b c h = grind int_laws

-- What detectDivergences answers if every account's rows imply a balance.
detect_run :
    (accounts : List Account) (s : Db)
    → All (HasBalance s) accounts
    → (ds : List Divergence) × (detect_divergences accounts [] s ≡ (ok ds, [], s))
      × Detected s accounts ds
unfolding detect_divergences load_transactions_for_recalc ◌>>=◌
detect_run [] s h = ([], refl, refl)
detect_run (a ∷ rest) s h =
    let (c, implied) = h.0 in
    let (ds, found, detected) = detect_run rest s h.1 in
    elim (Bool-cases (eqb_ℤ a.balance c)) [
      | inl same ↦ (
        ds,
        rw (implied, found, same),
        inl (implied ∙ ap ok (sym (same_balance a.balance c same)), detected),
      )
      | inr other ↦
          (divergence_of a c ∷ ds, rw (implied, found, other), inr (c, ds, refl, implied, detected))
    ]

-- Accounts that agree are not listed.
detect_none :
    (accounts : List Account) (s : Db)
    → All (λ a. implied_balance a.id a s ≡ ok a.balance) accounts
    → detect_divergences accounts [] s ≡ (ok [], [], s)
unfolding detect_divergences load_transactions_for_recalc ◌>>=◌
detect_none [] s h = refl
detect_none (a ∷ rest) s h = rw (h.0, detect_none rest s h.1, eqb_ℤ_refl a.balance)

-- The accounts in scope, or the error, as a function of the table.
loaded_one : Options → Option Account → Result (List Account)
loaded_one opts none = err Error.no_rows
loaded_one opts (some a) =
    if ltb 0 opts.only_user && not (a.user_id == opts.only_user)
    then err Error.access_denied
    else ok (a ∷ [])

loaded : Options → List Account → Result (List Account)
loaded opts rows =
    if ltb 0 opts.only_account
    then loaded_one opts (find_live opts.only_account rows)
    else ok (sort_by_id (keep (in_scope opts.only_user) rows))

load_one_run :
    (opts : Options) (found : Option Account) (s : Db)
    → (query (λ s. row_of found) >>= λ account.
          raise_if
            (ltb 0 opts.only_user && not (account.user_id == opts.only_user))
            Error.access_denied
          >> pure (account ∷ []))
        [] s
      ≡ (loaded_one opts found, [], s)
unfolding loaded_one ◌>>=◌
load_one_run opts none s = refl
load_one_run opts (some a) s = ground arith

load_run : (opts : Options) (s : Db) → load_accounts opts [] s ≡ (loaded opts s.accounts, [], s)
unfolding load_accounts load_one_account loaded ◌>>=◌
load_run opts s = elim (Bool-cases (ltb 0 opts.only_account)) [
  | inl one ↦ rw one (load_one_run opts (find_live opts.only_account s.accounts) s)
  | inr all ↦ rw all
]

load_frame :
    (opts : Options) (s t : Db) (accounts : List Account)
    → t.accounts ≡ s.accounts
    → load_accounts opts [] s ≡ (ok accounts, [], s)
    → load_accounts opts [] t ≡ (ok accounts, [], t)
load_frame opts s t accounts same h =
    let answer : loaded opts s.accounts ≡ ok accounts =
      sym (ap (λ o. o.0) (load_run opts s)) ∙ ap (λ o. o.0) h in
    load_run opts t ∙ rw (same, answer)

insert_nothing :
    (run_id : String) (now : Time) (s : Db) → insert_all run_id now [] [] s ≡ (ok tt, [], s)
unfolding insert_all ◌>>=◌
insert_nothing run_id now s = refl

-- A run by its steps.
run_steps :
    (format_day : Time → String) (opts : Options) (now : Time) (s t : Db) (accounts : List Account)
    (ds : List Divergence)
    → opts.dry_run ≡ false
    → load_accounts opts [] s ≡ (ok accounts, [], s)
    → detect_divergences accounts [] s ≡ (ok ds, [], s)
    → insert_all (format_day now) now ds [] s ≡ (ok tt, [], t)
    → run format_day opts now [] s ≡ (ok ds, [], t)
unfolding run ◌>>=◌
run_steps format_day opts now s t accounts ds wet loads detects inserts =
    rw (loads, detects, wet, inserts)

-- A run without a fault, not dry, over accounts with distinct ids whose rows imply balances, none
-- of the rows of the table being younger than the clock: it leaves the accounts as they are, the
-- stored balance of every account in scope then agrees with its rows, and a second run finds
-- nothing and writes nothing.
pub run-idempotent :
    (format_day : Time → String) (opts : Options) (now : Time) (s : Db) (accounts : List Account)
    → opts.dry_run ≡ false
    → load_accounts opts [] s ≡ (ok accounts, [], s)
    → Sum.HasUniqueIds accounts
    → All (HasBalance s) accounts
    → All (IsPast now s) s.transactions
    → let (_, _, s') = run format_day opts now [] s in
      (s'.accounts ≡ s.accounts)
      × All (λ a. implied_balance a.id a s' ≡ ok a.balance) accounts
      × (run format_day opts now [] s' ≡ (ok [], [], s'))
run-idempotent format_day opts now s accounts wet loads unique balances past =
    let (ds, detects, detected) = detect_run accounts s balances in
    let t = inserted (format_day now) now ds s in
    let agree = insert_settles (format_day now) now accounts ds s detected unique past in
    let kept = inserted_accounts (format_day now) now ds s in
    rw
      (run_steps format_day opts now s _ accounts ds wet loads detects
        (insert_run (format_day now) now ds s))
      (
        kept,
        agree,
        run_steps format_day opts now t t accounts [] wet (load_frame opts s t accounts kept loads)
            (detect_none accounts t agree) (insert_nothing (format_day now) now t),
      )

-- The amount of a compensating row, taken as income or as an expense as the row says, is the step
-- from the recalculated balance to the stored one; it is income exactly if the direction that the
-- command prints is up; and its target is the stored balance.
pub compensating_row-shift :
    (run_id : String) (now : Time) (d : Divergence)
    → let t = compensating_row run_id now d in
      (shift t d.recalculated ≡ d.stored_balance)
      × (direction d ≡ (if t.is_income then "up" else "down"))
      × (next_balance d.recalculated t ≡ ok d.stored_balance)
unfolding compensating_row amount is_income direction diff next_balance
compensating_row-shift run_id now d = (signed d.stored_balance d.recalculated, refl, refl)
