-- ===== src/Lib.antt =====
-- The core of the go-budget backend: accounts, transactions, and the balances that must agree
-- with them; the budgets that collect the expenses; the subscriptions of the users, with the events
-- of the payment provider; and the occurrences of planned transactions.
--
-- A user's accounts carry a stored balance; the account's rows in the table of transactions imply
-- a balance too. backend/internal/services/transactions writes rows and keeps the stored balances
-- up to date, backend/internal/services/accounts opens, edits and adjusts accounts, and
-- backend/cmd/reconcile-balances repairs accounts that drifted. A user's subscription names a
-- plan: backend/internal/services/subscription changes it at the user's request, when a status is
-- asked for and in two workers, and backend/internal/services/payment/webhook_handler.go as the
-- payment provider reports. A budget keeps the sum of a user's expenses in a range of dates and some
-- categories: backend/internal/services/budgets edits budgets, sums them up and renews them every
-- day, with conversions of backend/internal/services/currency, and the service of transactions
-- queues a task for backend/internal/workers/tasks/budget_update.go when a sum may have changed. The
-- repositories of backend/internal/repositories are the SQL that all of these run.
--
-- Files:
--   Prelude: names shared by all files; signed integers with their lemmas; lists and texts.
--   Models: the rows of the tables, after backend/internal/models, and the database as a record.
--   Exec: a method of a service as an action on the database that may fail. Every call of the
--     database may fail, as a schedule of faults says; no SQL transaction is open, so what is
--     written before an error stays written, as in the source. Exec/Rules: reading only.
--     Exec/Failing: failing only with an error of the database, or otherwise only before anything is
--     written.
--     Exec/Keeps and Exec/Answers: predicates that an action keeps, and those that its answer meets.
--   Repositories: the queries of backend/internal/repositories (transaction.go, account.go,
--     user.go, transaction_template.go, subscription.go, and lookups and counts of category.go,
--     currency.go, account_type.go and plan_price.go). Budgets is budget.go, with Found about rows
--     that a query found; ExchangeRates is the lookup of exchange_rate.go. Subscriptions/Sweep is about
--     updates of many rows, Lookup and Providers about what is found after an update.
--   TransactionService: backend/internal/services/transactions/service.go. Recalc is
--     RecalculateFromTransactions and recalculateBalances; Create, Update, Delete and Templates
--     are the methods of these names. Rejects files are about errors, Settled and Transfer files
--     about runs that reach their end.
--   AccountService: backend/internal/services/accounts/service.go. Adjust is AdjustBalance,
--     Opening CreateAccount, Editing UpdateAccount and Removal DeleteAccount.
--   Reconcile: backend/cmd/reconcile-balances/runner.go, which runs the same recalculation over
--     all accounts. Settles is about the rows it inserts, Runs about whole runs.
--   BudgetService: backend/internal/services/budgets/service.go. Recalc is recalculateBudget
--     and RecalculateCollectedAmounts, Editing has Create, Update, Delete and Archive
--     (Editing/Ownership and Isolation are about the rows they reach), Daily is
--     DailyProcessing and Csv the text of a list of categories. Recalc/Counted and
--     Daily/Renewals describe anew which expenses a budget counts and what its copy is.
--     Daily/Pass is about runs without a fault, Daily/Continued and Kept about runs with
--     faults, Daily/Behind and CatchUp about missed days. BudgetWorker: the tasks of
--     backend/internal/workers/tasks/budget_update.go.
--   CurrencyService: backend/internal/services/currency. Converter makes it the converter that
--     BudgetService asks for, Conversion is about the lookup of rates and Cached about the cache.
--   SubscriptionService: backend/internal/services/subscription/service.go. Upgrade, Downgrade
--     and Status are Upgrade, ScheduleDowngrade and GetStatus, Expiry is ProcessRenewals and
--     ProcessExpiredDowngrades. The other files are about these: Loops, Renewed and Downgraded
--     about runs of the workers, Applied, Trial, Lapsed, Stored and Granted about
--     what methods store and answer.
--   PaymentWebhook: backend/internal/services/payment/webhook_handler.go; a child module for
--     each kind of event that is reasoned about.
--   Lifecycle: the methods and workers of SubscriptionService and the events of PaymentWebhook
--     as steps of one relation, in any order.
--   Calendar: days and civil dates of Go's package time. RoundTrip leads from a day to its date and
--     back, Later is about AddDate. PlannedTransactions:
--     backend/internal/services/planned_transactions/occurrences.go. Within is about the range
--     and the number of occurrences, Daily about a daily rule.
--   Examples: concrete databases, and each result at one.
--
-- Conventions. An amount of money is an integer at one fixed decimal scale: the code adds,
-- subtracts and compares decimals, which is exact. An instant of time is a number of
-- microseconds since 1970, and the clock is an argument, read once in a method; a day has 24
-- hours, as in UTC. Instants before 1970 are not represented, and neither is the part of the
-- clock below a microsecond: a timestamptz does not keep it, so that the instants of an
-- answer, which the code gives to the nanosecond, stand for what is stored. A map's iteration
-- order is an argument of the method that iterates, and so is the database's order of labels;
-- a test breaks the ties that another ORDER BY leaves open. Every loop is a recursion on the
-- list that it visits, so no fuel is needed, but for two. The loop over occurrences is ended
-- by the code itself after 1000 rounds, which are its fuel; the digits of n have the fuel n +
-- 1, more than their number (Csv/RoundTrip). A table is a list of rows; SQL constraints are
-- stated where they are used (each HasUniqueIds is a primary key). Columns of relations,
-- which only the response shows, created_at and updated_at, the metadata of the payment
-- provider, log messages and the messages of responses are left out.
--
-- Parameters. The archivers of the subscription service are interfaces that no code of the
-- repository implements. The payment provider's library verifies signatures and fetches a Stripe
-- subscription; package json parses payloads and recurrence rules; sort.Slice, which leaves the
-- order of equal dates open, is an argument, and so are time.Parse and strings.ToUpper. The quotients
-- of package decimal, which round, are a parameter of the currency service; a rate is a number of
-- units of a fixed scale. A list of categories is text by its bytes, and an int has 64 bits.
--
-- Of a recurrence rule, package json checks only the types: an interval so large that an int
-- or the year wraps around, and a negative day of the month, are not represented; the end of
-- a rule with an offset is normalized in UTC.
--
-- Not modelled: HTTP handlers, middleware, e-mail, the checkout and cancellation calls of the
-- payment service, the stored planned transactions, reports, exports, backups and the
-- like, which either do I/O or stand apart from balances and subscriptions.
pub mod Prelude
pub mod Models
pub mod Exec
pub mod Repositories
pub mod TransactionService
pub mod AccountService
pub mod Reconcile
pub mod BudgetService
pub mod BudgetWorker
pub mod Calendar
pub mod CurrencyService
pub mod Examples
pub mod Lifecycle
pub mod PaymentWebhook
pub mod PlannedTransactions
pub mod SubscriptionService
