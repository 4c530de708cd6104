-- ===== src/Repositories.antt =====
-- The queries of backend/internal/repositories, a child module for each table. The database
-- enforces primary keys and foreign keys, so that a row that a query joins is always there.
-- An INSERT puts the new row first: no query depends on the order in which rows are stored.
pub mod Users
pub mod Accounts
pub mod Transactions
pub mod Templates
pub mod Lookups
pub mod Plans
pub mod Subscriptions
pub mod Budgets
pub mod ExchangeRates
pub mod Counts
