-- ===== src/TransactionService/Templates/Foreign.antt =====
-- DeleteTemplates never deletes a template of another user.
use orgfin_diploma.TransactionService.{active_user}
use orgfin_diploma.TransactionService.Templates.{delete_each, delete_own, delete_templates}
use orgfin_diploma.Exec.{
  Result, ◌>>=◌, Exec, Faults, continue, ok, err, ◌>>◌, result_to_option, row_of,
}
use orgfin_diploma.Models.{Template, Db}
use orgfin_diploma.Repositories.Templates as TemplateRows
use orgfin_diploma.Prelude.{
  ℕ, ◌≡◌, ◌≢◌, refl, ◌∙◌, Option, none, some, List, [], ◌∷◌, true, false, arith, inl, inr,
  Bool-cases, not, keep, ◌==◌, ==→eq, subst, sym,
}
use orgfin_diploma.Exec.Rules.{IsReadOnly}
use orgfin_diploma.TransactionService.Checks.{IsReadOnly-active_user, checks}

-- A template that another id is asked for stays where it is.
find-keep_other :
    (i j : ℕ) (ts : List Template)
    → j ≢ i
    → TemplateRows.find i (keep (λ t. not (t.id == j)) ts) ≡ TemplateRows.find i ts
unfolding TemplateRows.find
find-keep_other i j [] h = refl
find-keep_other i j (t ∷ ts) h = ground (arith, find-keep_other i j ts h)

-- If the rest keeps what the first step kept, so do both.
continue_keeps :
    {A B : Type 0} (P : Db → Type 0) (r : Result A) (f : A → Exec B) (fs : Faults) (s : Db)
    → P s
    → ((a : A) → P (f a fs s).2)
    → P (continue r f fs s).2
continue_keeps P (ok a) f fs s h k = k a
continue_keeps P (err e) f fs s h k = h

module _ (u i : ℕ) (t : Template) (foreign : t.user_id ≢ u) where
  abbrev Stays : Db → Type 0
  Stays s = TemplateRows.find i s.templates ≡ some t

  delete_keeps :
      (j : ℕ) (fs : Faults) (s : Db) → j ≢ i → Stays s → Stays (TemplateRows.delete j fs s).2
  unfolding TemplateRows.delete ◌>>=◌
  delete_keeps j [] s h k = find-keep_other i j s.templates h ∙ k
  delete_keeps j (true ∷ fs) s h k = k
  delete_keeps j (false ∷ fs) s h k = find-keep_other i j s.templates h ∙ k

  -- The body of the loop, on what the lookup found, if anything.
  own_keeps :
      (j : ℕ) (found : Option Template) (fs : Faults) (s : Db)
      → ((other : Template) → found ≡ some other → TemplateRows.find j s.templates ≡ some other)
      → Stays s
      → Stays (delete_own u j found fs s).2
  unfolding delete_own ◌>>=◌
  own_keeps j none fs s looked k = k
  own_keeps j (some other) fs s looked k = elim (Bool-cases (other.user_id == u)) [
    | inl mine ↦ rw mine (delete_keeps j fs s (unlike (==→eq other.user_id u mine)) k)
    | inr theirs ↦ rw theirs k
  ]
    where
      unlike : other.user_id ≡ u → j ≢ i
      unlike e same =
          let same_row : other ≡ t = cc (looked other refl, k, same) in
          foreign (subst (λ x. x.user_id ≡ u) same_row e)

  looked_up :
      (found : Option Template) (other : Template)
      → result_to_option (row_of found) ≡ some other
      → found ≡ some other
  looked_up none other h = cc
  looked_up (some x) other h = h

  -- One round of the loop, past the lookup, and the rounds behind it.
  round_keeps :
      (j : ℕ) (rest : Exec (Unit {0})) (fs : Faults) (s : Db)
      → ((gs : Faults) (x : Db) → Stays x → Stays (rest gs x).2)
      → Stays s
      → Stays
          ((delete_own u j (result_to_option (row_of (TemplateRows.find j s.templates))) >> rest) fs
            s).2
  unfolding ◌>>=◌
  round_keeps j rest fs s later k =
      let found = result_to_option (row_of (TemplateRows.find j s.templates)) in
      let kept = own_keeps j found fs s (looked_up (TemplateRows.find j s.templates)) k in
      continue_keeps Stays (delete_own u j found fs s).0 (λ _. rest) (delete_own u j found fs s).1
        (delete_own u j found fs s).2 kept
        (λ _. later (delete_own u j found fs s).1 (delete_own u j found fs s).2 kept)

  pub each_keeps :
      (ids : List ℕ) (fs : Faults) (s : Db) → Stays s → Stays (delete_each u ids fs s).2
  unfolding delete_each TemplateRows.get_by_id ◌>>=◌
  each_keeps [] fs s k = k
  each_keeps (j ∷ ids) [] s k = round_keeps j (delete_each u ids) [] s (each_keeps ids) k
  each_keeps (j ∷ ids) (false ∷ fs) s k = round_keeps j (delete_each u ids) fs s (each_keeps ids) k
  each_keeps (j ∷ ids) (true ∷ fs) s k = each_keeps ids fs s k

-- A check that only reads, and a query at the end, keep what the steps between them keep.
guarded_keeps :
    {A B C : Type 0} (P : Db → Type 0) (m : Exec A) (n : Exec B) (q : Exec C)
    → IsReadOnly m
    → IsReadOnly q
    → ((fs : Faults) (s : Db) → P s → P (n fs s).2)
    → (fs : Faults) (s : Db) → P s
    → P ((m >> (n >> q)) fs s).2
unfolding ◌>>=◌
guarded_keeps P m n q reads asks keeps fs s h =
    let before : P (m fs s).2 = subst P (sym (reads.at fs s)) h in
    continue_keeps P (m fs s).0 _ (m fs s).1 (m fs s).2 before (λ _.
      let after = keeps (m fs s).1 (m fs s).2 before in
      continue_keeps P (n (m fs s).1 (m fs s).2).0 _ _ _ after
        (λ _. subst P (sym (asks.at _ _)) after))

IsReadOnly-get_by_user_id :
    (by_label : List Template → List Template) (u : ℕ)
    → IsReadOnly (TemplateRows.get_by_user_id by_label u)
unfolding TemplateRows.get_by_user_id
IsReadOnly-get_by_user_id by_label u = search checks

-- Whatever ids DeleteTemplates is given and whatever calls of the database fail: a template of
-- another user is found afterwards as it was before.
pub delete_templates-keeps_foreign :
    (by_label : List Template → List Template) (u i : ℕ) (ids : List ℕ) (fs : Faults) (s : Db)
    (t : Template)
    → TemplateRows.find i s.templates ≡ some t
    → t.user_id ≢ u
    → TemplateRows.find i (delete_templates by_label u ids fs s).2.templates ≡ some t
unfolding delete_templates
delete_templates-keeps_foreign by_label u i ids fs s t found foreign =
    guarded_keeps (λ x. TemplateRows.find i x.templates ≡ some t) (active_user u)
      (delete_each u ids) (TemplateRows.get_by_user_id by_label u) (IsReadOnly-active_user u)
      (IsReadOnly-get_by_user_id by_label u) (each_keeps u i t foreign ids) fs s found
