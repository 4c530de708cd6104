-- ===== src/Examples/Budgets.antt =====
-- The results on budgets, each at a database with a daily budget that repeats and a trip.
use orgfin_diploma.BudgetService.Editing.Isolation.{edits-keep_foreign}
use orgfin_diploma.BudgetService.Editing.Ownership.{foreign}
use orgfin_diploma.Calendar.{day_of}
use orgfin_diploma.Repositories.ExchangeRates.{back_fill, forward_fill}
use orgfin_diploma.CurrencyService.Conversion.{nearest}
use orgfin_diploma.BudgetService.Daily.Kept.{daily_processing-keeps}
use orgfin_diploma.BudgetService.Editing.Reads.{CanCreate, created_db, new_row, create-reads_back}
use orgfin_diploma.BudgetService.Daily.Renewals.{with_renewals}
use orgfin_diploma.BudgetService.Daily.Pass.{
  IsReady, outdated_of, archive_outdated, daily_processing-exact,
}
use orgfin_diploma.Examples.Rates.{market, bank}
use orgfin_diploma.CurrencyService.Converter.{
  convert_amount-IsConverter, converted, IsReadOnly-convert_amount,
}
use orgfin_diploma.Exec.{◌>>=◌, err, ok, Error, Faults}
use orgfin_diploma.BudgetService.Editing.{with_params, delete, archive}
use orgfin_diploma.BudgetService.Daily.CatchUp.{CanCatchUp, run_daily, run_daily-catches_up}
use orgfin_diploma.BudgetService.Recalc.{recalculate_collected_amounts}
use orgfin_diploma.BudgetService.Daily.{daily_processing, copy_of}
use orgfin_diploma.BudgetService.Csv.{parse_category_ids}
use orgfin_diploma.Models.{Account, Transaction, Time, Budget, Db, BudgetModel}
use orgfin_diploma.Repositories.Budgets.{
  fits, is_period, is_outdated, of_user, inserted_row, Include, budget_rows,
}
use orgfin_diploma.BudgetService.{BudgetParams, parse_date, Service}
use orgfin_diploma.BudgetService.Recalc.Sums.{
  collected, set_collected, recalculate_collected_amounts-exact, sum_values,
}
use orgfin_diploma.Repositories.Budgets
use orgfin_diploma.BudgetService.Editing.{create, update}
use orgfin_diploma.CurrencyService.{convert_amount}
use orgfin_diploma.Repositories.Budgets.Found.{HasUniqueIds}
use orgfin_diploma.Prelude.{
  ℕ, keep, All, String, pos, false, ◌*◌, [], ◌<◌, Option, if◌then◌else◌, ◌∷◌, ◌≡◌, true, none,
  arith, some, same_text, refl, HasRow, length, ◌+◌, map, ◌⊎◌, ◌&&◌, ◌≤◌, inl, ◌+ℤ◌,
}

abbrev pub at_day : ℕ → Time
at_day n = n * 86400000000

abbrev pub parse : String → String → Option Time
parse layout text =
    if same_text layout "2006-01-02" && same_text text "1970-01-03" then some (at_day 2) else none

abbrev pub planner : Service
planner = record {
  convert_amount = convert_amount bank;
  parse_layout = parse;
  to_upper = λ t. t;
  ties = λ a b. true;
}

abbrev pub food : Budget
food = record {
  id = 1;
  user_id = 1;
  name = "food";
  currency_id = 1;
  target_amount = pos 100;
  collected_amount = pos 0;
  period = "DAILY";
  repeat = true;
  start_date = at_day 2;
  end_date = at_day 4;
  included_categories = [];
  is_archived = false;
  comment = none;
  is_deleted = false;
}

abbrev pub trip : Budget
trip = record food { id = 2; name = "trip"; period = "CUSTOM"; repeat = false; end_date = at_day 5 }

abbrev pub lunch : Transaction
lunch = record {
  id = 1;
  user_id = 1;
  account_id = 1;
  amount = pos 30;
  new_balance = none;
  category_id = some 7;
  label = none;
  is_income = false;
  is_transfer = false;
  linked_transaction_id = none;
  notes = none;
  date_time = some (at_day 3);
  is_deleted = false;
  is_adjustment = false;
  exclude_from_reports = false;
}

abbrev pub wallet : Account
wallet = record {
  id = 1;
  user_id = 1;
  name = "wallet";
  account_type_id = 1;
  currency_id = 2;
  balance = pos 0;
  initial_balance = pos 0;
  comment = none;
  show_in_reports = true;
  is_archived = false;
  archived_at = none;
  opening_date = none;
  is_hidden = false;
  credit_limit = none;
  is_deleted = false;
}

abbrev pub home : Db
home = record market {
  accounts = wallet ∷ [];
  transactions = lunch ∷ [];
  currencies = record { id = 1; code = "EUR" } ∷ record { id = 2; code = "USD" } ∷ [];
  budgets = food ∷ trip ∷ [];
  next_budget_id = 3;
}

pub home_unique : HasUniqueIds home.budgets
home_unique = ground arith

home_below : All (λ b. b.id < 3) home.budgets
home_below = omega arith

home-CanCatchUp : CanCatchUp 2 (at_day 6) home
unfolding is_period
home-CanCatchUp = record {
  unique = home_unique;
  known = (refl, (refl, tt));
  below = home_below;
  behind = (
    (λ _. record { late = omega arith; short = omega arith; period = refl; lasting = λ e. cc }),
    (
      (λ _. record {
        late = omega arith;
        short = omega arith;
        period = refl;
        lasting = λ e. omega arith;
      }),
      tt,
    ),
  );
}

run_daily-catches_up_example :
    keep (is_outdated (at_day 6)) (run_daily 2 planner (at_day 6) home).budgets ≡ []
run_daily-catches_up_example = run_daily-catches_up planner 2 (at_day 6) home home-CanCatchUp

home-IsReady : IsReady (at_day 6) home
unfolding fits is_period copy_of
home-IsReady = record {
  unique = home_unique;
  known = (refl, (refl, tt));
  below = home_below;
  fitting = ((λ _ _. refl), ((λ _ e. cc), tt));
}

daily_processing-exact_example :
    let (r, _, s') = daily_processing planner (at_day 6) [] home in
    (r ≡ ok (length (keep (is_outdated (at_day 6)) home.budgets)))
    × (s'.budgets
        ≡ with_renewals
            (outdated_of planner (at_day 6) home)
            3
            (map (archive_outdated (at_day 6)) home.budgets))
daily_processing-exact_example = daily_processing-exact planner (at_day 6) home home-IsReady

-- The copy cannot be stored.
daily_processing-keeps_example :
    let (_, _, s') = daily_processing planner (at_day 6) (false ∷ true ∷ []) home in
    HasRow food s'.budgets ⊎ ((i : ℕ) × (3 ≤ i) × HasRow (inserted_row (copy_of food) i) s'.budgets)
daily_processing-keeps_example =
    daily_processing-keeps planner (at_day 6) food (false ∷ true ∷ []) home home_unique home_below
      (inl refl) refl

recalculate_collected_amounts-exact_example : recalculate_collected_amounts planner 1 [] home ≡ (
  ok tt,
  [],
  record home {
    budgets =
        map
          (λ b.
            if of_user 1 Include.active b
            then set_collected (collected planner (convert_amount-IsConverter bank) 1 home b) b
            else b)
          home.budgets;
  },
)
recalculate_collected_amounts-exact_example =
    recalculate_collected_amounts-exact planner (convert_amount-IsConverter bank) 1 home home_unique
      (refl, (refl, tt))

-- 30 dollars are 60 euro.
food-collected : collected planner (convert_amount-IsConverter bank) 1 home food ≡ pos 60
unfolding collected sum_values convert_amount-IsConverter converted nearest back_fill forward_fill
    budget_rows parse_category_ids day_of ◌+ℤ◌
food-collected = refl

abbrev rent : BudgetParams
rent = record {
  name = "rent";
  currency_id = 1;
  target_amount = pos 9;
  period = "MONTHLY";
  repeat = true;
  start_date = "1970-01-03";
  end_date = "1970-01-03";
  categories = pos 7 ∷ [];
  comment = none;
}

rent-CanCreate : CanCreate planner 1 rent home
unfolding parse_date fits is_period with_params
rent-CanCreate = record {
  start_date = at_day 2;
  end_date = at_day 2;
  currency = record { id = 1; code = "EUR" };
  starts = refl;
  ends = refl;
  found = refl;
  coded = refl;
  fitting = refl;
  ints = (refl, tt);
  unused = home_below;
}

create-reads_back_example :
    let (r, _, s') = create planner 1 rent [] home in
    (m : BudgetModel) × (r ≡ ok m)
    × ((Budgets.get_by_id 3 [] s').0 ≡ ok m)
    × (parse_category_ids m.row.included_categories ≡ pos 7 ∷ [])
    × (m.row.start_date ≡ rent-CanCreate.start_date)
    × (m.row.end_date ≡ rent-CanCreate.end_date + 86400000000)
    × (m.row.collected_amount
        ≡ collected planner
            (convert_amount-IsConverter bank)
            1
            (created_db planner (convert_amount-IsConverter bank) 1 rent home rent-CanCreate)
            (new_row planner (convert_amount-IsConverter bank) 1 rent home rent-CanCreate))
create-reads_back_example =
    create-reads_back planner (convert_amount-IsConverter bank) 1 rent home rent-CanCreate

-- The budget of another user.
denied : (update planner 2 1 rent [] home).0 ≡ err Error.access_denied
unfolding update parse_date Budgets.get_by_id ◌>>=◌
denied = refl

-- The trip is another user's, and the third call of the database fails.
abbrev shared : Db
shared = record home { budgets = food ∷ record trip { user_id = 2 } ∷ [] }

shared_unique : HasUniqueIds shared.budgets
shared_unique = ground arith

edits-keep_foreign_example :
    let fs : Faults = false ∷ false ∷ true ∷ [] in
    (foreign 1 (update planner 1 1 rent fs shared).2 ≡ foreign 1 shared)
    × (foreign 1 (delete 1 1 fs shared).2 ≡ foreign 1 shared)
    × (foreign 1 (archive 1 1 fs shared).2 ≡ foreign 1 shared)
edits-keep_foreign_example =
    edits-keep_foreign planner (IsReadOnly-convert_amount bank) 1 1 rent (false ∷ false ∷ true ∷ [])
      shared shared_unique
