-- ===== src/Repositories/Budgets/Found.antt =====
-- Rows of the table of budgets that a query found, by their ids.
use orgfin_diploma.Exec.{ok}
use orgfin_diploma.Repositories.Lookups.{find_currency}
use orgfin_diploma.Repositories.Budgets.{scanned, is_some, joined}
use orgfin_diploma.Prelude.{
  ℕ, ◌≡◌, refl, Bool, List, ◌≢◌, any, All, ◌==◌, map, keep, false, ◌∷◌, ==_refl, All-map_proof,
  Bool-cases, inl, All-zip_proof, sym, ne→==, inr, [], true, every, sort_by, All-sort_by, ◌∙◌,
  All-keep,
}
use orgfin_diploma.Models.{Budget, Db}

abbrev pub HasUniqueIds : List Budget → Type 0
HasUniqueIds [] = Unit
HasUniqueIds (b ∷ bs) = All (λ c. c.id ≢ b.id) bs × HasUniqueIds bs

-- Whether a row with an id is among some rows.
abbrev pub has_id : ℕ → List Budget → Bool
has_id i = any (λ b. i == b.id)

absent :
    (p : Budget → Bool) (i : ℕ) (bs : List Budget)
    → All (λ c. c.id ≢ i) bs
    → has_id i (keep p bs) ≡ false
absent p i [] h = refl
absent p i (b ∷ bs) h = elim (Bool-cases (p b)) [
  | inl e ↦ rw (e, ne→== i b.id (λ same. h.0 (sym same))) (absent p i bs h.1)
  | inr e ↦ rw e (absent p i bs h.1)
]

skipped :
    (p : Budget → Bool) (b : Budget) (bs : List Budget) (c : Budget)
    → c.id ≢ b.id
    → has_id c.id (keep p bs) ≡ p c
    → has_id c.id (keep p (b ∷ bs)) ≡ p c
skipped p b bs c ne h = elim (Bool-cases (p b)) [
  | inl e ↦ rw (e, ne→== c.id b.id ne) h
  | inr e ↦ rw e h
]

-- With unique ids, a row of the table is among those that pass a test exactly if it passes.
pub has_id-keep :
    (p : Budget → Bool) (bs : List Budget)
    → HasUniqueIds bs
    → All (λ c. has_id c.id (keep p bs) ≡ p c) bs
has_id-keep p [] h = tt
has_id-keep p (b ∷ bs) (fresh, unique) = (
  here p b bs fresh (p b) refl,
  All-zip_proof (skipped p b bs) bs fresh (has_id-keep p bs unique),
)
  where
    here :
        (p : Budget → Bool) (b : Budget) (bs : List Budget)
        → All (λ c. c.id ≢ b.id) bs
        → (v : Bool) → p b ≡ v
        → has_id b.id (keep p (b ∷ bs)) ≡ p b
    here p b bs fresh true e = rw (e, ==_refl b.id) refl
    here p b bs fresh false e = rw e (absent p b.id bs fresh)

pub map-All {ℓ} :
    {A : Type ℓ} (f g : A → A) (xs : List A) → All (λ x. f x ≡ g x) xs → map f xs ≡ map g xs
map-All f g [] h = refl
map-All f g (x ∷ xs) h = rw (h.0, map-All f g xs h.1)

-- Rows of the table that share an id are the same row.
pub All-coherent :
    (bs : List Budget) → HasUniqueIds bs → All (λ c. All (λ b. b.id ≡ c.id → b ≡ c) bs) bs
All-coherent [] h = tt
All-coherent (b ∷ bs) (fresh, unique) = (
  ((λ _. refl), All-map_proof (λ c ne same. absurd (ne same)) bs fresh),
  All-zip_proof (λ c ne rest. ((λ same. absurd (ne (sym same))), rest)) bs fresh
      (All-coherent bs unique),
)

pub every-All {ℓ} :
    {A : Type ℓ} (p : A → Bool) (xs : List A) → All (λ x. p x ≡ true) xs → every p xs ≡ true
every-All p [] h = refl
every-All p (x ∷ xs) h = rw (h.0, every-All p xs h.1) refl

-- Every row's currency is there, as its foreign key says.
abbrev pub HasCurrencies : Db → Type 0
HasCurrencies s = All (λ b. is_some (find_currency b.currency_id s.currencies) ≡ true) s.budgets

-- Rows of the table, in some order, that a query reads.
pub scanned_run :
    (before : Budget → Budget → Bool) (p : Budget → Bool) (s : Db)
    → HasCurrencies s
    → scanned s (sort_by before (keep p s.budgets))
      ≡ ok (map (joined s) (sort_by before (keep p s.budgets)))
scanned_run before p s known =
    rw
      (every-All (λ b. is_some (find_currency b.currency_id s.currencies)) _
        (All-sort_by before _ _ (All-keep _ p s.budgets known)))
      refl

pub All-map {ℓ κ ι} :
    {A : Type ℓ} {P : A → Type κ} (Q : A → Type ι) (f : A → A)
    → ((a : A) → P a → Q (f a))
    → (xs : List A) → All P xs
    → All Q (map f xs)
All-map Q f h [] p = tt
All-map Q f h (x ∷ xs) p = (h x p.0, All-map Q f h xs p.1)

-- A pass over the table that keeps the ids keeps them unique.
pub HasUniqueIds-map :
    (f : Budget → Budget)
    → ((b : Budget) → (f b).id ≡ b.id)
    → (bs : List Budget) → HasUniqueIds bs
    → HasUniqueIds (map f bs)
HasUniqueIds-map f same [] h = tt
HasUniqueIds-map f same (b ∷ bs) (fresh, unique) = (
  All-map (λ c. c.id ≢ (f b).id) f (λ c ne e. ne (sym (same c) ∙ e ∙ same b)) bs fresh,
  HasUniqueIds-map f same bs unique,
)
