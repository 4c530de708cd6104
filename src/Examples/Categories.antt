-- ===== src/Examples/Categories.antt =====
-- The list of categories of a budget, as text.
use orgfin_diploma.BudgetService.Csv.RoundTrip.{parse_category_ids-categories_to_csv}
use orgfin_diploma.BudgetService.Csv.{parse_category_ids, categories_to_csv}
use orgfin_diploma.Prelude.{◌∷◌, [], pos, ◌≡◌, negsuc, refl}

parse_category_ids-categories_to_csv_example :
    parse_category_ids (categories_to_csv (pos 12 ∷ negsuc 4 ∷ [])) ≡ pos 12 ∷ negsuc 4 ∷ []
parse_category_ids-categories_to_csv_example =
    parse_category_ids-categories_to_csv (pos 12 ∷ negsuc 4 ∷ []) (refl, (refl, tt))

csv_test :
    parse_category_ids (categories_to_csv (pos 12 ∷ negsuc 4 ∷ pos 0 ∷ []))
    ≡ pos 12 ∷ negsuc 4 ∷ pos 0 ∷ []
unfolding parse_category_ids categories_to_csv
csv_test = refl

-- A space, an empty field and a word.
skip_test : parse_category_ids (32 ∷ 55 ∷ 44 ∷ 44 ∷ 97 ∷ 44 ∷ 32 ∷ 56 ∷ []) ≡ pos 7 ∷ pos 8 ∷ []
unfolding parse_category_ids
skip_test = refl
