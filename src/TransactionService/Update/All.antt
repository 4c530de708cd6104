-- ===== src/TransactionService/Update/All.antt =====
-- A loop of recalculations, run without a fault.
use orgfin_diploma.TransactionService.Delete.Rows.{HasUniqueIds-Alike}
use orgfin_diploma.TransactionService.Update.{recalculate_all}
use orgfin_diploma.Exec.{ok, ◌>>=◌}
use orgfin_diploma.TransactionService.Recalc.Settled.{
  implied_balance, IsSettled, settled_db, IsSettled-self, settled_found_other, implied-Alike,
  settled-Alike, IsSettled-other, recalculate_run,
}
use orgfin_diploma.Models.{Db, Account}
use orgfin_diploma.Repositories.Accounts
use orgfin_diploma.Prelude.{
  ℕ, ℤ, ◌≡◌, refl, sym, ◌∙◌, some, List, [], ◌∷◌, All, All-map_proof, inl, inr, subst, equal_or_not,
}
use orgfin_diploma.TransactionService.Recalc.Rows.{HasUniqueIds}

-- An account that is there, and whose rows imply a balance.
abbrev pub IsRecalculable : Db → ℕ → Type 0
IsRecalculable s a =
    (acc : Account) × (b : ℤ) × (Accounts.find a s.accounts ≡ some acc)
    × (implied_balance a acc s ≡ ok b)

module _ (b : ℕ) (c : ℤ) (acc : Account) (s : Db) (found : Accounts.find b s.accounts ≡ some acc)
    (implied : implied_balance b acc s ≡ ok c) (unique : HasUniqueIds s.transactions) where
  pub IsRecalculable-settled_db :
      (a : ℕ) → IsRecalculable s a → IsRecalculable (settled_db b c acc s) a
  IsRecalculable-settled_db a (other, d, other_found, other_implied) = elim (equal_or_not a b) [
    | inl same ↦ subst (IsRecalculable (settled_db b c acc s)) (sym same) (
        let (self, self_found, self_implied) = IsSettled-self b c acc s found implied unique in
        (self, self.balance, self_found, self_implied))
    | inr apart ↦ (
      other,
      d,
      settled_found_other b c acc s found implied a apart ∙ other_found,
      sym (
            implied-Alike a other s (settled_db b c acc s)
              (settled-Alike b c acc s found implied unique))
          ∙ other_implied,
    )
  ]

  pub IsSettled-settled_db : (a : ℕ) → IsSettled a s → IsSettled a (settled_db b c acc s)
  IsSettled-settled_db a h = elim (equal_or_not a b) [
    | inl same ↦
        subst (λ x. IsSettled x (settled_db b c acc s)) (sym same)
          (IsSettled-self b c acc s found implied unique)
    | inr apart ↦ IsSettled-other b c acc s found implied a apart unique h
  ]

  pub unique-settled_db : HasUniqueIds (settled_db b c acc s).transactions
  unique-settled_db = HasUniqueIds-Alike _ _ (settled-Alike b c acc s found implied unique) unique

loop_step :
    (b : ℕ) (rest : List ℕ) (c : ℤ) (acc : Account) (s : Db)
    → Accounts.find b s.accounts ≡ some acc
    → implied_balance b acc s ≡ ok c
    → recalculate_all (b ∷ rest) [] s ≡ recalculate_all rest [] (settled_db b c acc s)
unfolding recalculate_all ◌>>=◌
loop_step b rest c acc s found implied = rw (recalculate_run b c acc s found implied)

-- The loop ends, keeps every account settled that was, and settles every account that it visits.
pub loop_run :
    (visited : List ℕ) (s : Db)
    → All (IsRecalculable s) visited
    → HasUniqueIds s.transactions
    → (t : Db) × (recalculate_all visited [] s ≡ (ok tt, [], t))
      × ((a : ℕ) → IsSettled a s → IsSettled a t)
      × All (λ a. IsSettled a t) visited
unfolding recalculate_all ◌>>=◌
loop_run [] s h unique = (s, refl, λ a settled. settled, tt)
loop_run (b ∷ rest) s h unique =
    let (acc, c, found, implied) = h.0 in
    let (t, ends, keeps, settles) =
      loop_run rest (settled_db b c acc s)
        (All-map_proof (IsRecalculable-settled_db b c acc s found implied unique) rest h.1)
        (unique-settled_db b c acc s found implied unique) in
    (
      t,
      loop_step b rest c acc s found implied ∙ ends,
      λ a settled. keeps a (IsSettled-settled_db b c acc s found implied unique a settled),
      (keeps b (IsSettled-self b c acc s found implied unique), settles),
    )
