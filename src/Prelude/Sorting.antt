-- ===== src/Prelude/Sorting.antt =====
-- Sorting by a test.
use Prim.Native.Nat.{suc}
use mathlib.Core.Bool.{Bool, true, false, ◌||◌}
use mathlib.Core.Path.{◌≡◌, refl, sym, subst}
use mathlib.Core.Logic.{inl, inr}
use mathlib.Core.List.{List, [], ◌∷◌}
use orgfin_diploma.Prelude.Tests.{Bool-cases, if◌then◌else◌}
use orgfin_diploma.Prelude.Lists.{All, All-map_proof, any, length}

-- The rows in the order of a test, by insertion; the test says how ties are broken.
module _ {ℓ} {A : Type ℓ} (before : A → A → Bool) where
  unfoldable pub insert_by : A → List A → List A
  insert_by x [] = x ∷ []
  insert_by x (y ∷ ys) = if before x y then x ∷ y ∷ ys else y ∷ insert_by x ys

  unfoldable pub sort_by : List A → List A
  unfolding insert_by
  sort_by [] = []
  sort_by (x ∷ xs) = insert_by x (sort_by xs)

  All-insert_by {κ} :
      (P : A → Type κ) (x : A) (xs : List A) → P x → All P xs → All P (insert_by x xs)
  unfolding insert_by
  All-insert_by P x [] p h = (p, tt)
  All-insert_by P x (y ∷ ys) p h = elim (Bool-cases (before x y)) [
    | inl e ↦ rw e (p, h)
    | inr e ↦ rw e (h.0, All-insert_by P x ys p h.1)
  ]

  -- Sorting keeps what holds of all rows.
  pub All-sort_by {κ} : (P : A → Type κ) (xs : List A) → All P xs → All P (sort_by xs)
  unfolding sort_by
  All-sort_by P [] h = tt
  All-sort_by P (x ∷ xs) h = All-insert_by P x (sort_by xs) h.0 (All-sort_by P xs h.1)

  any-insert_by : (p : A → Bool) (x : A) (xs : List A) → any p (insert_by x xs) ≡ any p (x ∷ xs)
  unfolding insert_by
  any-insert_by p x [] = refl
  any-insert_by p x (y ∷ ys) = elim (Bool-cases (before x y)) [
    | inl e ↦ rw e refl
    | inr e ↦ rw (e, any-insert_by p x ys) (swap (p y) (p x) (any p ys))
  ]
    where
      swap : (a b c : Bool) → (a || (b || c)) ≡ (b || (a || c))
      swap true true c = refl
      swap true false c = refl
      swap false true c = refl
      swap false false c = refl

  -- Sorting keeps whether some row passes a test.
  pub any-sort_by : (p : A → Bool) (xs : List A) → any p (sort_by xs) ≡ any p xs
  unfolding sort_by
  any-sort_by p [] = refl
  any-sort_by p (x ∷ xs) = rw (any-insert_by p x (sort_by xs), any-sort_by p xs) refl

  length-insert_by : (x : A) (xs : List A) → length (insert_by x xs) ≡ suc (length xs)
  unfolding insert_by
  length-insert_by x [] = refl
  length-insert_by x (y ∷ ys) = elim (Bool-cases (before x y)) [
    | inl e ↦ rw e refl
    | inr e ↦ rw (e, length-insert_by x ys) refl
  ]

  pub length-sort_by : (xs : List A) → length (sort_by xs) ≡ length xs
  unfolding sort_by
  length-sort_by [] = refl
  length-sort_by (x ∷ xs) = rw (length-insert_by x (sort_by xs), length-sort_by xs) refl

  All-insert_by_back {κ} :
      (P : A → Type κ) (x : A) (xs : List A) → All P (insert_by x xs) → P x × All P xs
  unfolding insert_by
  All-insert_by_back P x [] h = (h.0, tt)
  All-insert_by_back P x (y ∷ ys) h = elim (Bool-cases (before x y)) [
    | inl e ↦ let k : All P (x ∷ y ∷ ys) = rw e at h in (k.0, k.1)
    | inr e ↦
        let k : All P (y ∷ insert_by x ys) = rw e at h in
        let (px, rest) = All-insert_by_back P x ys k.1 in (px, (k.0, rest))
  ]

  pub All-sort_by_back {κ} : (P : A → Type κ) (xs : List A) → All P (sort_by xs) → All P xs
  unfolding sort_by
  All-sort_by_back P [] h = tt
  All-sort_by_back P (x ∷ xs) h =
      let (px, rest) = All-insert_by_back P x (sort_by xs) h in (px, All-sort_by_back P xs rest)

-- A relation that the test decides.
pub record Decides {ℓ κ} {A : Type ℓ} (before : A → A → Bool) (R : A → A → Type κ)
    : Type (ℓ ⊔ κ) where
  pub holds : (x y : A) → before x y ≡ true → R x y
  pub fails : (x y : A) → before x y ≡ false → R y x
  pub same : (x : A) → R x x
  pub trans : (x y z : A) → R x y → R y z → R x z

module _ {ℓ κ} {A : Type ℓ} (before : A → A → Bool) (R : A → A → Type κ)
    (d : Decides before R) where
  HeadsAll : List A → Type κ
  HeadsAll [] = Unit
  HeadsAll (x ∷ xs) = All (R x) (x ∷ xs)

  HeadsAll-insert_by : (x : A) (xs : List A) → HeadsAll xs → HeadsAll (insert_by before x xs)
  unfolding insert_by HeadsAll
  HeadsAll-insert_by x [] h = (d.same x, tt)
  HeadsAll-insert_by x (y ∷ ys) h = elim (Bool-cases (before x y)) [
    | inl e ↦ rw e (d.same x, All-map_proof (λ z r. d.trans x y z (d.holds x y e) r) (y ∷ ys) h)
    | inr e ↦ rw e (d.same y, All-insert_by before (R y) x ys (d.fails x y e) h.1)
  ]

  HeadsAll-sort_by : (xs : List A) → HeadsAll (sort_by before xs)
  unfolding sort_by HeadsAll
  HeadsAll-sort_by [] = tt
  HeadsAll-sort_by (x ∷ xs) = HeadsAll-insert_by x (sort_by before xs) (HeadsAll-sort_by xs)

  -- The first row of the sort, against every row.
  pub sort_by-first : (xs ys : List A) (y : A) → sort_by before xs ≡ y ∷ ys → All (R y) xs
  unfolding HeadsAll
  sort_by-first xs ys y e =
      All-sort_by_back before (R y) xs
        (subst (All (R y)) (sym e) (subst HeadsAll e (HeadsAll-sort_by xs)))
