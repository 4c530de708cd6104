-- ===== src/BudgetService/Recalc/Counted.antt =====
-- Which rows a budget of backend/internal/services/budgets/service.go counts: an independent
-- description of the query's conditions.
use orgfin_diploma.BudgetService.Csv.{parse_category_ids}
use orgfin_diploma.Repositories.Budgets.{is_expense, is_dated, in_categories}
use orgfin_diploma.Models.{Budget, Time, Transaction}
use orgfin_diploma.Prelude.{
  ℕ, Option, ℤ, List, ◌≡◌, some, none, false, [], pos, ◌∷◌, refl, ◌==◌, true, Bool, not, leb, any,
  ◌&&◌, eqb_ℤ, ltb,
}

-- A row that a budget of the user counts: the user's, spent and not moved or removed, not before the
-- start and before the end, and in one of the categories, if there are any.
abbrev is_spent : Transaction → Bool
is_spent t =
    not t.is_income && (not t.is_transfer && (not t.is_deleted && not t.exclude_from_reports))

abbrev in_range : Budget → Option Time → Bool
in_range b none = false
in_range b (some date) = leb b.start_date date && ltb date b.end_date

abbrev in_scope : List ℤ → Option ℕ → Bool
in_scope [] category = true
in_scope (i ∷ is) none = false
in_scope (i ∷ is) (some category) = any (eqb_ℤ (pos category)) (i ∷ is)

abbrev pub counts : ℕ → Budget → Transaction → Bool
counts u b t =
    t.user_id == u
    && is_spent t
    && in_range b t.date_time
    && in_scope (parse_category_ids b.included_categories) t.category_id

pub expense_counts :
    (u : ℕ) (b : Budget) (t : Transaction)
    → is_expense u b.start_date b.end_date (parse_category_ids b.included_categories) t
      ≡ counts u b t
expense_counts u b t =
    rw (same_range t.date_time, same_scope (parse_category_ids b.included_categories) t.category_id)
      refl
  where
    same_range : (d : Option Time) → is_dated b.start_date b.end_date d ≡ in_range b d
    same_range none = refl
    same_range (some d) = refl

    same_scope : (is : List ℤ) (c : Option ℕ) → in_categories is c ≡ in_scope is c
    same_scope [] c = refl
    same_scope (i ∷ is) none = refl
    same_scope (i ∷ is) (some c) = refl
