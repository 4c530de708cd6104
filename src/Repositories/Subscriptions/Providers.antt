-- ===== src/Repositories/Subscriptions/Providers.antt =====
-- What a lookup of a provider's row finds after an UPDATE of the row that it found.
use orgfin_diploma.Prelude.{
  ℕ, ◌≡◌, ◌≢◌, refl, ◌∙◌, sym, some, Bool, true, false, List, [], ◌∷◌, All, All-find_first,
  find_first, Bool-cases, inl, inr, ◌==◌, eq→==, ne→==, subst,
}
use orgfin_diploma.Models.{ProviderSubscription}
use orgfin_diploma.Repositories.Subscriptions.{change_provider, set_provider}

-- The primary key: no id occurs twice.
abbrev pub HasUniqueIds : List ProviderSubscription → Type 0
HasUniqueIds [] = Unit
HasUniqueIds (p ∷ ps) = All (λ x. x.id ≢ p.id) ps × HasUniqueIds ps

module _ (t : ProviderSubscription → Bool) where
  first_here :
      (p : ProviderSubscription) (ps : List ProviderSubscription)
      → t p ≡ true
      → find_first t (p ∷ ps) ≡ some p
  first_here p ps e = rw e refl

  first_there :
      (p : ProviderSubscription) (ps : List ProviderSubscription)
      → t p ≡ false
      → find_first t (p ∷ ps) ≡ find_first t ps
  first_there p ps e = rw e refl

  -- The row that is found takes the columns, and is found still if it passes the test.
  pub find_first-change :
      (b : ProviderSubscription) (ps : List ProviderSubscription) {p : ProviderSubscription}
      → HasUniqueIds ps
      → find_first t ps ≡ some p
      → p.id ≡ b.id
      → t (set_provider b p) ≡ true
      → find_first t (change_provider b ps) ≡ some (set_provider b p)
  unfolding change_provider
  find_first-change b [] unique h id passes = cc
  find_first-change b (q ∷ ps) {p} unique h id passes = elim (Bool-cases (t q)) [
    | inl e ↦ hit (rw e at h)
    | inr e ↦ miss e (rw e at h) (λ k. find_first-change b ps {p = p} unique.1 k id passes)
  ]
    where
      hit : some q ≡ some p → find_first t (change_provider b (q ∷ ps)) ≡ some (set_provider b p)
      hit k =
          let same : p ≡ q = sym (cc k) in
          subst (λ x. find_first t (change_provider b (q ∷ ps)) ≡ some (set_provider b x))
            (sym same)
            (rw (eq→== q.id b.id (cc (same, id))) (
              first_here (set_provider b q) (change_provider b ps)
                (subst (λ x. t (set_provider b x) ≡ true) same passes)))

      miss :
          t q ≡ false
          → find_first t ps ≡ some p
          → (find_first t ps ≡ some p
              → find_first t (change_provider b ps) ≡ some (set_provider b p))
          → find_first t (change_provider b (q ∷ ps)) ≡ some (set_provider b p)
      miss e k later =
          rw
            (ne→== q.id b.id
              (λ same. All-find_first (λ x. x.id ≢ q.id) t ps {a = p} unique.0 k (id ∙ sym same)))
            (first_there q (change_provider b ps) e ∙ later k)

change_provider_unlike :
    (b : ProviderSubscription) (n : ℕ) (ps : List ProviderSubscription)
    → All (λ x. x.id ≢ n) ps
    → All (λ x. x.id ≢ n) (change_provider b ps)
unfolding change_provider
change_provider_unlike b n [] h = tt
change_provider_unlike b n (q ∷ ps) h = elim (Bool-cases (q.id == b.id)) [
  | inl e ↦ rw e (h.0, change_provider_unlike b n ps h.1)
  | inr e ↦ rw e (h.0, change_provider_unlike b n ps h.1)
]

pub change_provider-HasUniqueIds :
    (b : ProviderSubscription) (ps : List ProviderSubscription)
    → HasUniqueIds ps
    → HasUniqueIds (change_provider b ps)
unfolding change_provider
change_provider-HasUniqueIds b [] h = tt
change_provider-HasUniqueIds b (q ∷ ps) h = elim (Bool-cases (q.id == b.id)) [
  | inl e ↦ rw e (change_provider_unlike b q.id ps h.0, change_provider-HasUniqueIds b ps h.1)
  | inr e ↦ rw e (change_provider_unlike b q.id ps h.0, change_provider-HasUniqueIds b ps h.1)
]
