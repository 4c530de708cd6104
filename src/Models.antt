-- ===== src/Models.antt =====
-- The rows of the database, after the structs of backend/internal/models (account.go,
-- transaction.go, transaction_template.go, user.go, subscription.go, plan_price.go, budget.go,
-- currency.go). An instant of time is a number of
-- microseconds. Fields that only a join or a response fills (relations, computed amounts) and the
-- columns that only the database writes (created_at, updated_at) are left out.
use orgfin_diploma.Prelude.{ℕ, ℤ, Bool, Option, List, [], String}

-- An instant of time.
abbrev pub Time : Type 0
Time = ℕ

pub record User : Type 0 where
  pub id : ℕ
  pub email : String
  pub is_active : Bool
  pub is_deleted : Bool

pub record Account : Type 0 where
  pub id : ℕ
  pub user_id : ℕ
  pub name : String
  pub account_type_id : ℕ
  pub currency_id : ℕ
  pub balance : ℤ
  pub initial_balance : ℤ
  pub comment : Option String
  pub show_in_reports : Bool
  pub is_archived : Bool
  pub archived_at : Option Time
  pub opening_date : Option Time
  pub is_hidden : Bool
  pub credit_limit : Option ℤ
  pub is_deleted : Bool

pub record Transaction : Type 0 where
  pub id : ℕ
  pub user_id : ℕ
  pub account_id : ℕ
  pub amount : ℤ
  pub new_balance : Option ℤ
  pub category_id : Option ℕ
  pub label : Option String
  pub is_income : Bool
  pub is_transfer : Bool
  pub linked_transaction_id : Option ℕ
  pub notes : Option String
  pub date_time : Option Time
  pub is_deleted : Bool
  pub is_adjustment : Bool
  pub exclude_from_reports : Bool

pub record Template : Type 0 where
  pub id : ℕ
  pub user_id : ℕ
  pub category_id : Option ℕ
  pub target_account_id : Option ℕ
  pub label : String

-- A queued budget:user_update task, by its payload.
pub record BudgetTask : Type 0 where
  pub user_id : ℕ
  pub account_id : ℕ

-- A plan's kind: the enum plantype of the database, which the code reads in lower case.
pub data PlanType : Type 0 where
  free trial premium : PlanType

-- The columns of a billing period that the code reads.
pub record BillingPeriod : Type 0 where
  pub id : ℕ
  pub duration_days : ℕ

pub record SubscriptionPlan : Type 0 where
  pub id : ℕ
  pub name : String
  pub plan_type : PlanType
  pub sort_order : ℤ
  pub billing_period : Option BillingPeriod
  pub is_active : Bool
  pub is_deleted : Bool

pub record PlanPrice : Type 0 where
  pub id : ℕ
  pub plan_id : ℕ
  pub external_price_id : String
  pub is_active : Bool

-- A row of the table of subscriptions. An empty list of accounts is stored as NULL.
pub record SubscriptionRow : Type 0 where
  pub id : ℕ
  pub user_id : ℕ
  pub plan_id : ℕ
  pub current_billing_period_id : Option ℕ
  pub trial_started_at : Option Time
  pub trial_ends_at : Option Time
  pub subscribed_at : Option Time
  pub expires_at : Option Time
  pub auto_renew : Bool
  pub canceled_at : Option Time
  pub pending_plan_id : Option ℕ
  pub pending_downgrade_account_ids : List ℕ
  pub pending_downgrade_budget_id : Option ℕ
  pub is_active : Bool

-- The struct Subscription: a row, and what the query joins to it.
pub record Subscription : Type 0 where
  pub row : SubscriptionRow
  pub plan_type : PlanType
  pub has_stripe_subscription : Bool

-- A row of payment_provider_subscriptions; its metadata, which no modelled code reads, is left out.
pub record ProviderSubscription : Type 0 where
  pub id : ℕ
  pub subscription_id : ℕ
  pub external_customer_id : Option String
  pub external_subscription_id : Option String
  pub external_schedule_id : Option String
  pub payment_method_id : Option String
  pub last_payment_failed : Bool

pub record Currency : Type 0 where
  pub id : ℕ
  pub code : String

-- A row of the table of budgets. The list of categories is the text that the column holds, by its
-- bytes.
pub record Budget : Type 0 where
  pub id : ℕ
  pub user_id : ℕ
  pub name : String
  pub currency_id : ℕ
  pub target_amount : ℤ
  pub collected_amount : ℤ
  pub period : String
  pub repeat : Bool
  pub start_date : Time
  pub end_date : Time
  pub included_categories : List ℕ
  pub is_archived : Bool
  pub comment : Option String
  pub is_deleted : Bool

-- The struct Budget: a row, and the currency that a query joins to it.
pub record BudgetModel : Type 0 where
  pub row : Budget
  pub currency : Option Currency

-- A row of exchange_rates: its date as a day number, and the rate of each currency code to the base currency, as a number of units
-- of a fixed decimal scale.
pub record ExchangeRates : Type 0 where
  pub actual_date : ℕ
  pub rates : List (String × ℕ)
  pub is_deleted : Bool

-- The tables that the services share, the next value of each id sequence, and the task queue.
pub record Db : Type 0 where
  pub users : List User
  pub accounts : List Account
  pub transactions : List Transaction
  pub templates : List Template
  pub categories : List ℕ
  pub currencies : List Currency
  pub account_types : List ℕ
  pub plans : List SubscriptionPlan
  pub plan_prices : List PlanPrice
  pub subscriptions : List SubscriptionRow
  pub providers : List ProviderSubscription
  pub budgets : List Budget
  pub exchange_rates : List ExchangeRates
  pub next_account_id : ℕ
  pub next_transaction_id : ℕ
  pub next_template_id : ℕ
  pub next_subscription_id : ℕ
  pub next_provider_id : ℕ
  pub next_budget_id : ℕ
  pub tasks : List BudgetTask

abbrev pub empty_db : Db
empty_db = record {
  users = [];
  accounts = [];
  transactions = [];
  templates = [];
  categories = [];
  currencies = [];
  account_types = [];
  plans = [];
  plan_prices = [];
  subscriptions = [];
  providers = [];
  budgets = [];
  exchange_rates = [];
  next_account_id = 1;
  next_transaction_id = 1;
  next_template_id = 1;
  next_subscription_id = 1;
  next_provider_id = 1;
  next_budget_id = 1;
  tasks = [];
}
