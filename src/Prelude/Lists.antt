-- ===== src/Prelude/Lists.antt =====
-- Lists measured by native numbers, and predicates on their members by recursion.
use Prim.Native.Nat.{ℕ, suc}
use mathlib.Core.Bool.{Bool, true, false, ◌&&◌, ◌||◌}
use mathlib.Core.Path.{◌≡◌, refl, subst, sym}
use mathlib.Core.Logic.{inl, inr, ◌⊎◌}
use mathlib.Core.Option.{Option, none, some}
use mathlib.Core.List.{List, [], ◌∷◌}
use orgfin_diploma.Prelude.Tests.{◌==◌, Bool-cases, if◌then◌else◌}

module _ {ℓ} {A : Type ℓ} where
  abbrev pub length : List A → ℕ
  length [] = 0
  length (x ∷ xs) = suc (length xs)

  -- The rows that pass a test, in their order.
  abbrev pub keep : (A → Bool) → List A → List A
  keep p [] = []
  keep p (x ∷ xs) = if p x then x ∷ keep p xs else keep p xs

  -- The first row that passes a test.
  abbrev pub find_first : (A → Bool) → List A → Option A
  find_first p [] = none
  find_first p (x ∷ xs) = if p x then some x else find_first p xs

-- Whether some row, or every row, passes a test.
abbrev pub any {ℓ} : {A : Type ℓ} → (A → Bool) → List A → Bool
any p [] = false
any p (x ∷ xs) = p x || any p xs

abbrev pub every {ℓ} : {A : Type ℓ} → (A → Bool) → List A → Bool
every p [] = true
every p (x ∷ xs) = p x && every p xs

abbrev pub All {ℓ κ} : {A : Type ℓ} → (A → Type κ) → List A → Type κ
All P [] = Unit
All P (x ∷ xs) = P x × All P xs

pub All-map_proof {ℓ κ ι} :
    {A : Type ℓ} {P : A → Type κ} {Q : A → Type ι}
    → ((a : A) → P a → Q a)
    → (xs : List A) → All P xs
    → All Q xs
All-map_proof f [] h = tt
All-map_proof f (x ∷ xs) h = (f x h.0, All-map_proof f xs h.1)

-- Membership of a number, as a test.
abbrev pub contains : ℕ → List ℕ → Bool
contains n [] = false
contains n (m ∷ ms) = if n == m then true else contains n ms

pub All-zip_proof {ℓ κ ι υ} :
    {A : Type ℓ} {P : A → Type κ} {Q : A → Type ι} {R : A → Type υ}
    → ((a : A) → P a → Q a → R a)
    → (xs : List A) → All P xs
    → All Q xs
    → All R xs
All-zip_proof f [] h k = tt
All-zip_proof f (x ∷ xs) h k = (f x h.0 k.0, All-zip_proof f xs h.1 k.1)

-- What holds of all rows holds of the one that is found.
pub All-find_first {ℓ κ} :
    {A : Type ℓ} (P : A → Type κ) (p : A → Bool) (xs : List A) {a : A}
    → All P xs
    → find_first p xs ≡ some a
    → P a
All-find_first P p [] h e = cc
All-find_first P p (x ∷ xs) {a} h e = elim (Bool-cases (p x)) [
  | inl hit ↦ let same : x ≡ a = cc (rw hit at e) in subst P same h.0
  | inr miss ↦ All-find_first P p xs {a = a} h.1 (rw miss at e)
]

-- The row that is found passes the test.
pub find_first_passes {ℓ} :
    {A : Type ℓ} (p : A → Bool) (xs : List A) {a : A} → find_first p xs ≡ some a → p a ≡ true
find_first_passes p [] e = cc
find_first_passes p (x ∷ xs) {a} e = elim (Bool-cases (p x)) [
  | inl hit ↦ let same : x ≡ a = cc (rw hit at e) in subst (λ y. p y ≡ true) same hit
  | inr miss ↦ find_first_passes p xs {a = a} (rw miss at e)
]

-- A row of a list.
abbrev pub HasRow : {A : Type 0} → A → List A → Type 0
HasRow x [] = ⊥
HasRow x (y ∷ ys) = (y ≡ x) ⊎ HasRow x ys

pub All-row {κ} : {A : Type 0} (P : A → Type κ) (x : A) (xs : List A) → HasRow x xs → All P xs → P x
All-row P x [] h k = absurd h
All-row P x (y ∷ ys) (inl e) k = subst P e k.0
All-row P x (y ∷ ys) (inr h) k = All-row P x ys h k.1

pub All-rows : {A : Type 0} (xs : List A) → All (λ x. HasRow x xs) xs
All-rows [] = tt
All-rows (x ∷ xs) = (inl refl, All-map_proof (λ y h. inr h) xs (All-rows xs))

-- The rows that a test keeps pass it.
pub All-keep_passed {ℓ κ} :
    {A : Type ℓ} (Q : A → Type κ) (p : A → Bool) (xs : List A)
    → All (λ x. p x ≡ true → Q x) xs
    → All Q (keep p xs)
All-keep_passed Q p [] h = tt
All-keep_passed Q p (x ∷ xs) h = elim (Bool-cases (p x)) [
  | inl e ↦ rw e (h.0 e, All-keep_passed Q p xs h.1)
  | inr e ↦ rw e (All-keep_passed Q p xs h.1)
]

-- What holds of the rows that a test keeps holds of every row that passes.
pub All-keep_back {ℓ κ} :
    {A : Type ℓ} (Q : A → Type κ) (p : A → Bool) (xs : List A)
    → All Q (keep p xs)
    → All (λ x. p x ≡ true → Q x) xs
All-keep_back Q p [] h = tt
All-keep_back Q p (x ∷ xs) h = elim (Bool-cases (p x)) [
  | inl e ↦ let k : All Q (x ∷ keep p xs) = rw e at h in ((λ _. k.0), All-keep_back Q p xs k.1)
  | inr e ↦
      let k : All Q (keep p xs) = rw e at h in
      ((λ f. absurd (differ (sym f) e)), All-keep_back Q p xs k)
]
  where
    differ : {b : Bool} → true ≡ b → b ≡ false → ⊥
    differ f e = cc

pub All-keep {ℓ κ} :
    {A : Type ℓ} (P : A → Type κ) (p : A → Bool) (xs : List A) → All P xs → All P (keep p xs)
All-keep P p [] h = tt
All-keep P p (x ∷ xs) h = elim (Bool-cases (p x)) [
  | inl e ↦ rw e (h.0, All-keep P p xs h.1)
  | inr e ↦ rw e (All-keep P p xs h.1)
]
