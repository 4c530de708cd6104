-- ===== src/BudgetService/Csv/RoundTrip.antt =====
-- The list of categories of backend/internal/services/budgets/service.go, written and read back.
use orgfin_diploma.BudgetService.Csv.{
  split, Bytes, itoa, trim_space, scan, scan_some, trim_left, join, digits, atoi, is_space, is_int,
  signed, is_digit, negated, parse_trimmed, parse_parts, parse_category_ids, categories_to_csv,
}
use mathlib.Core.List.{reverse, reverse_aux, reverse-reverse, append-nil}
use orgfin_diploma.Prelude.{
  ℕ, ◌+◌, ◌==◌, ◌<◌, ◌∷◌, ◌⊎◌, ◌%◌, All, [], ℤ, ◌≡◌, List, suc, arith, ◌∙◌, ◌++◌, pos, false, ◌/◌,
  inl, All-map_proof, refl, Bool-cases, inr, negsuc, true, zero, ◌*◌, some, ap, sym, ◌-◌, ==→eq,
  ◌≢◌, map,
}

-- A byte that neither ends a field nor is trimmed.
record IsPlain (c : ℕ) : Type 0 where
  no_comma : (c == 44) ≡ false
  no_space : is_space c ≡ false

digit-IsPlain : (n : ℕ) → IsPlain (48 + n % 10)
digit-IsPlain n = record { no_comma = ground arith; no_space = ground arith }

digits-IsPlain : (f n : ℕ) (out : Bytes) → All IsPlain out → All IsPlain (digits f n out)
unfolding digits
digits-IsPlain zero n out h = h
digits-IsPlain (suc f) n out h = elim (Bool-cases (n / 10 == 0)) [
  | inl e ↦ rw e (digit-IsPlain n, h)
  | inr e ↦ rw e (digits-IsPlain f (n / 10) ((48 + n % 10) ∷ out) (digit-IsPlain n, h))
]

itoa-IsPlain : (i : ℤ) → All IsPlain (itoa i)
unfolding itoa
itoa-IsPlain (pos n) = digits-IsPlain (suc n) n [] tt
itoa-IsPlain (negsuc n) =
    (record { no_comma = refl; no_space = refl }, digits-IsPlain (suc (suc n)) (suc n) [] tt)

-- Reading the last digit after the others gives the number.
scan_last : (n : ℕ) (out : Bytes) → scan ((48 + n % 10) ∷ out) (n / 10) ≡ scan out n
unfolding scan
scan_last n out =
    let digit : is_digit (48 + n % 10) ≡ true = ground arith in
    let whole : n / 10 * 10 + (48 + n % 10 - 48) ≡ n = omega arith in rw digit (ap (scan out) whole)

scan-digits : (f n : ℕ) (out : Bytes) → n < f → scan (digits f n out) 0 ≡ scan out n
unfolding digits
scan-digits zero n out h = elim h [ ]
scan-digits (suc f) n out h = elim (Bool-cases (n / 10 == 0)) [
  | inl e ↦ rw e (ap (scan ((48 + n % 10) ∷ out)) (sym (==→eq (n / 10) 0 e)) ∙ scan_last n out)
  | inr e ↦
      rw e (scan-digits f (n / 10) ((48 + n % 10) ∷ out) (ground (arith, h, e)) ∙ scan_last n out)
]

-- A text that starts with a digit.
StartsWithDigit : Bytes → Type 0
StartsWithDigit [] = ⊥
StartsWithDigit (c ∷ s) = is_digit c ≡ true

digits-StartsWithDigit :
    (f n : ℕ) (out : Bytes) → 0 < f ⊎ StartsWithDigit out → StartsWithDigit (digits f n out)
unfolding digits StartsWithDigit
digits-StartsWithDigit zero n out (inl h) = elim h [ ]
digits-StartsWithDigit zero n out (inr h) = h
digits-StartsWithDigit (suc f) n out h =
    let digit : is_digit (48 + n % 10) ≡ true = ground arith in
    elim (Bool-cases (n / 10 == 0)) [
      | inl e ↦ rw e digit
      | inr e ↦ rw e (digits-StartsWithDigit f (n / 10) ((48 + n % 10) ∷ out) (inr digit))
    ]

atoi_digits : (s : Bytes) → StartsWithDigit s → atoi s ≡ signed pos (scan s 0)
unfolding StartsWithDigit atoi scan_some
atoi_digits [] h = absurd h
atoi_digits (c ∷ s) h =
    let minus : (c == 45) ≡ false = ground (arith, h) in
    let plus : (c == 43) ≡ false = ground (arith, h) in rw (minus, plus) refl

scan_some_digits : (s : Bytes) → StartsWithDigit s → scan_some s ≡ scan s 0
unfolding StartsWithDigit scan_some
scan_some_digits [] h = absurd h
scan_some_digits (c ∷ s) h = refl

read_back :
    (n : ℕ) (sign : ℕ → ℤ) → is_int (sign n) ≡ true → signed sign (scan [] n) ≡ some (sign n)
unfolding scan
read_back n sign h = rw h

number_scan : (f n : ℕ) → n < f → scan (digits f n []) 0 ≡ scan [] n
number_scan f n = scan-digits f n []

minus_digits : (s : Bytes) → StartsWithDigit s → atoi (45 ∷ s) ≡ signed negated (scan s 0)
unfolding atoi
minus_digits s h = ap (signed negated) (scan_some_digits s h)

-- An int is read back from its digits.
atoi-itoa : (i : ℤ) → is_int i ≡ true → atoi (itoa i) ≡ some i
unfolding itoa
atoi-itoa (pos n) h =
    atoi_digits (digits (suc n) n []) (digits-StartsWithDigit (suc n) n [] (inl (omega arith)))
    ∙ ap (signed pos) (number_scan (suc n) n (omega arith))
    ∙ read_back n pos h
atoi-itoa (negsuc n) h =
    minus_digits (digits (suc (suc n)) (suc n) [])
      (digits-StartsWithDigit (suc (suc n)) (suc n) [] (inl (omega arith)))
    ∙ ap (signed negated) (number_scan (suc (suc n)) (suc n) (omega arith))
    ∙ read_back (suc n) negated h

-- Trimming.
trim_left_same : (s : Bytes) → All (λ c. is_space c ≡ false) s → trim_left s ≡ s
unfolding trim_left
trim_left_same [] h = refl
trim_left_same (c ∷ s) h = rw (h.0)

All-reverse_aux {ℓ} : (P : ℕ → Type ℓ) (s t : Bytes) → All P s → All P t → All P (reverse_aux s t)
All-reverse_aux P [] t h k = k
All-reverse_aux P (c ∷ s) t h k = All-reverse_aux P s (c ∷ t) h.1 (h.0, k)

trim_space_same : (s : Bytes) → All (λ c. is_space c ≡ false) s → trim_space s ≡ s
unfolding trim_space
trim_space_same s h =
    rw (trim_left_same s h, trim_left_same (reverse s) (All-reverse_aux _ s [] h tt))
      (reverse-reverse s)

no_spaces : (s : Bytes) → All IsPlain s → All (λ c. is_space c ≡ false) s
no_spaces s h = All-map_proof (λ c p. p.no_space) s h

-- Splitting.
split_part :
    (p rest acc : Bytes) → All IsPlain p → split (p ++ rest) acc ≡ split rest (reverse_aux p acc)
unfolding split
split_part [] rest acc h = refl
split_part (c ∷ p) rest acc h = rw (h.0.no_comma) (split_part p rest (c ∷ acc) h.1)

split_last : (p : Bytes) → All IsPlain p → split p [] ≡ p ∷ []
unfolding split
split_last p h =
    ap (λ s. split s []) (sym (append-nil p))
    ∙ split_part p [] [] h
    ∙ ap (λ s. s ∷ []) (reverse-reverse p)

split-join :
    (p : Bytes) (ps : List Bytes) → All (All IsPlain) (p ∷ ps) → split (join (p ∷ ps)) [] ≡ p ∷ ps
unfolding join split
split-join p [] h = split_last p h.0
split-join p (q ∷ ps) h =
    split_part p (44 ∷ join (q ∷ ps)) [] h.0
    ∙ ap (λ s. s ∷ split (join (q ∷ ps)) []) (reverse-reverse p)
    ∙ ap (λ t. p ∷ t) (split-join q ps h.1)

-- The whole list.
parts_back : (ids : List ℤ) → All (λ i. is_int i ≡ true) ids → parse_parts (map itoa ids) ≡ ids
unfolding parse_parts
parts_back [] h = refl
parts_back (i ∷ ids) h =
    rw (trim_space_same (itoa i) (no_spaces (itoa i) (itoa-IsPlain i)), atoi-itoa i h.0)
      (ap (λ t. i ∷ t) (parts_back ids h.1))

IsPlain-parts : (ids : List ℤ) → All (All IsPlain) (map itoa ids)
IsPlain-parts [] = tt
IsPlain-parts (i ∷ ids) = (itoa-IsPlain i, IsPlain-parts ids)

IsBlank : ℕ → Type 0
IsBlank c = is_space c ≡ false

All-append : (s t : Bytes) → All IsBlank s → All IsBlank t → All IsBlank (s ++ t)
All-append [] t h k = k
All-append (c ∷ s) t h k = (h.0, All-append s t h.1 k)

join_no_spaces : (ps : List Bytes) → All (All IsPlain) ps → All IsBlank (join ps)
unfolding join IsBlank
join_no_spaces [] h = tt
join_no_spaces (p ∷ []) h = no_spaces p h.0
join_no_spaces (p ∷ q ∷ ps) h =
    All-append p (44 ∷ join (q ∷ ps)) (no_spaces p h.0) (refl, join_no_spaces (q ∷ ps) h.1)

split-ne-nil : (s : Bytes) → s ≢ [] → parse_trimmed s ≡ parse_parts (split s [])
unfolding parse_trimmed
split-ne-nil [] ne = absurd (ne refl)
split-ne-nil (c ∷ s) ne = refl

StartsWithDigit-ne-nil : (s : Bytes) → StartsWithDigit s → s ≢ []
unfolding StartsWithDigit
StartsWithDigit-ne-nil [] h e = h
StartsWithDigit-ne-nil (c ∷ s) h e = cc

itoa-ne-nil : (i : ℤ) → itoa i ≢ []
unfolding itoa
itoa-ne-nil (pos n) =
    StartsWithDigit-ne-nil (digits (suc n) n [])
      (digits-StartsWithDigit (suc n) n [] (inl (omega arith)))
itoa-ne-nil (negsuc n) = λ e. cc

join-ne-nil : (p : Bytes) (ps : List Bytes) → p ≢ [] → join (p ∷ ps) ≢ []
unfolding join
join-ne-nil [] ps ne e = ne refl
join-ne-nil (c ∷ p) [] ne e = cc
join-ne-nil (c ∷ p) (q ∷ ps) ne e = cc

-- The list of categories that a budget stores is read back: every int, in its order.
pub parse_category_ids-categories_to_csv :
    (ids : List ℤ)
    → All (λ i. is_int i ≡ true) ids
    → parse_category_ids (categories_to_csv ids) ≡ ids
unfolding parse_category_ids categories_to_csv IsBlank
parse_category_ids-categories_to_csv [] h = refl
parse_category_ids-categories_to_csv (i ∷ ids) h =
    ap parse_trimmed
      (trim_space_same _ (join_no_spaces (map itoa (i ∷ ids)) (IsPlain-parts (i ∷ ids))))
    ∙ split-ne-nil _ (join-ne-nil (itoa i) (map itoa ids) (itoa-ne-nil i))
    ∙ ap parse_parts (split-join (itoa i) (map itoa ids) (IsPlain-parts (i ∷ ids)))
    ∙ parts_back (i ∷ ids) h
