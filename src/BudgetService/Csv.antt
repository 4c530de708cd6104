-- ===== src/BudgetService/Csv.antt =====
-- categoriesToCSV and parseCategoryIDs of backend/internal/services/budgets/service.go, on the bytes
-- of a text, with what they use of the packages strconv and strings. An int has 64 bits.
-- TrimSpace is modelled for the white space of ASCII.
pub mod RoundTrip
use mathlib.Core.List.{reverse}
use orgfin_diploma.Prelude.{
  refl, ℕ, zero, suc, ◌+◌, ◌-◌, ◌*◌, ◌/◌, ◌%◌, Option, Bool, pos, ◌∷◌, ℤ, List, ◌++◌, negsuc,
  if◌then◌else◌, leb, some, map, ltb, [], none, ◌==◌, ◌||◌, ◌≡◌, ◌&&◌,
}

abbrev pub Bytes : Type 0
Bytes = List ℕ

-- strconv.Itoa: the digits before the others, the last one first. The first number bounds the digits.
unfoldable pub digits : ℕ → ℕ → Bytes → Bytes
digits zero n out = out
digits (suc fuel) n out =
    let rest = digits fuel (n / 10) ((48 + n % 10) ∷ out) in
    if n / 10 == 0 then (48 + n % 10) ∷ out else rest

unfoldable pub itoa : ℤ → Bytes
unfolding digits
itoa (pos n) = digits (suc n) n []
itoa (negsuc n) = 45 ∷ digits (suc (suc n)) (suc n) []

-- strings.Join with a comma.
unfoldable pub join : List Bytes → Bytes
join [] = []
join (p ∷ []) = p
join (p ∷ q ∷ ps) = p ++ (44 ∷ join (q ∷ ps))

unfoldable pub categories_to_csv : List ℤ → Bytes
unfolding itoa join
categories_to_csv ids = join (map itoa ids)

-- strings.Split at commas; the first list is the part so far, in reverse.
unfoldable pub split : Bytes → Bytes → List Bytes
split [] part = reverse part ∷ []
split (c ∷ s) part =
    let rest = split s [] in
    let more = split s (c ∷ part) in if c == 44 then reverse part ∷ rest else more

-- The white space of ASCII.
abbrev pub is_space : ℕ → Bool
is_space c = c == 32 || (leb 9 c && leb c 13)

unfoldable pub trim_left : Bytes → Bytes
trim_left [] = []
trim_left (c ∷ s) = if is_space c then trim_left s else c ∷ s

-- strings.TrimSpace
unfoldable pub trim_space : Bytes → Bytes
unfolding trim_left
trim_space s = reverse (trim_left (reverse (trim_left s)))

abbrev pub is_digit : ℕ → Bool
is_digit c = leb 48 c && leb c 57

unfoldable pub scan : Bytes → ℕ → Option ℕ
scan [] n = some n
scan (c ∷ s) n = if is_digit c then scan s (n * 10 + (c - 48)) else none

-- strconv.Atoi of a text that is not empty.
-- An int of 64 bits.
abbrev pub is_int : ℤ → Bool
is_int (pos n) = ltb n 9223372036854775808
is_int (negsuc n) = ltb n 9223372036854775808

abbrev pub negated : ℕ → ℤ
negated zero = pos 0
negated (suc n) = negsuc n

abbrev pub in_range : ℤ → Option ℤ
in_range i = if is_int i then some i else none

-- The digits, of which there is one at least, behind the sign.
abbrev pub signed : (ℕ → ℤ) → Option ℕ → Option ℤ
signed sign none = none
signed sign (some n) = in_range (sign n)

unfoldable pub scan_some : Bytes → Option ℕ
unfolding scan
scan_some [] = none
scan_some (c ∷ s) = scan (c ∷ s) 0

-- strconv.Atoi
unfoldable pub atoi : Bytes → Option ℤ
unfolding scan_some
atoi [] = none
atoi (c ∷ s) =
    if c == 45
    then signed negated (scan_some s)
    else signed pos (if c == 43 then scan_some s else scan_some (c ∷ s))

-- A field that is empty or does not parse is skipped.
abbrev pub cons_id : Option ℤ → List ℤ → List ℤ
cons_id none ids = ids
cons_id (some i) ids = i ∷ ids

unfoldable pub parse_parts : List Bytes → List ℤ
unfolding trim_space atoi
parse_parts [] = []
parse_parts (p ∷ ps) = cons_id (atoi (trim_space p)) (parse_parts ps)

unfoldable pub parse_trimmed : Bytes → List ℤ
unfolding split parse_parts
parse_trimmed [] = []
parse_trimmed (c ∷ s) = parse_parts (split (c ∷ s) [])

unfoldable pub parse_category_ids : Bytes → List ℤ
unfolding parse_trimmed trim_space
parse_category_ids s = parse_trimmed (trim_space s)
