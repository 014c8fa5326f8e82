-- ===== src/Lib.antt =====
-- A model of the expense engine: the service functions under app/helpers that the write routes run
-- inside one database transaction, the idempotency layer around them, the jobs that store exchange
-- rates, and the conversions and monthly figures that read them.
--
-- A service function is a state transformer with errors (Exec): it maps the database to a result
-- and the database it leaves, also where it raises. The database (Schema) is a record of tables;
-- a table is a list of rows, a SELECT is `select` or `find`, an UPDATE is `update_where`, and
-- `now` is the instant of the transaction.
--
-- - Schema: app/constants.py, the rows of sql/002 and sql/003 as later migrations leave them, the
--   responses of app/schemas, and Table, the columns that the generic helpers name.
-- - Exec: app/errors.py; Exec/Keeps has the rules for invariants, Exec/Outcome those for triples.
-- - Query: app/helpers/query_builder.py and activity_log.py.
-- - Text, Validation: app/helpers/validation.py; Validation/Cleaned is what normalize_name gives.
-- - Links: app/helpers/hashtag_links.py.
-- - Ledger: app/helpers/transactions.py (Requests, Rows, Create, Edit, Remove; Accepts is what a
--   batch lets through), and the computed balance of app/helpers/account_balance.py (Balance).
-- - Inbox: app/helpers/inbox.py.
-- - Reconciliations: app/helpers/reconciliations.py; Reconciliations/Sealed is the invariant of a
--   completed one.
-- - Named: app/helpers/reference_data.py, and the unique indexes of names (sql/012, sql/028).
-- - Accounts, Categories, Hashtags: the helpers of those names; Guards has what their deletions
--   leave, Names that they keep the indexes.
-- - Rates: app/helpers/exchange_rate.py, its decimals (Rates/Decimals) and its cache over a history
--   of requests (Rates/Cached).
-- - Jobs: app/jobs/fetch_exchange_rates.py, what it stores (Jobs/Accepts) and its wait for the
--   database (Jobs/Wait); Jobs/Backfill is app/jobs/backfill_exchange_rates.py.
-- - HomeBalance: app/helpers/settings.py, the conversions of app/helpers/account_balance.py, and the
--   interface by which Accounts uses them.
-- - HomeCurrency: the SQL fragments of app/helpers/home_currency.py.
-- - Reports: app/helpers/monthly_report.py.
-- - Calls: the write routes of app/routers/transactions.py, inbox.py and reconciliations.py, as one
--   function on the data type of calls; Calls/Audit is about their audit rows.
-- - References: the write routes of app/routers/accounts.py, people.py, categories.py and
--   hashtags.py, likewise; References/Sealed is about histories of both kinds of call.
-- - Idempotency: app/helpers/idempotency.py, over any work.
-- - Base: lists as tables, integers, sums over tables, and updates by key.
-- - Tests: a small database, and runs on it.
--
-- Recursion is on lists, but for the tries of the rate jobs, which are 30 and 3 as in the code, and
-- for the count of decimal digits, whose fuel is the number itself; Rates/Digits has that it is
-- enough. Ids are numbers, since the code only compares them; the order of ids stands for that of
-- their texts. Money is of any size: the columns are bigint, and an overflow there is an error of
-- the database that is not modelled; the integer range of sort_order is. A decimal is its digits
-- and their scale, exact where Python's context of 28 digits loses none. Row locks and the advisory
-- lock are not modelled: one transaction runs at a time, and the rate lookups of a process run one
-- after another. A history of calls runs at one instant `now`; no invariant of a history names it. A snapshot in the audit log is the response value, not its JSON.
--
-- Parameters: the digest of a request; the folds of case of Postgres and of Python (Casing); the
-- time-zone database and the local day of an instant (Zones), the first instant of a month
-- (MonthStart); the clocks of the process; the collation that orders names in a report; the answer of
-- the rate provider, and the order in which the fetches of a backfill complete.
--
-- Not modelled: the dashboard, users, sessions and tokens, paging and query text, and the process
-- itself.
pub mod Base
pub mod Schema
pub mod Exec
pub mod Query
pub mod Text
pub mod Validation
pub mod Named
pub mod Rates
pub mod Links
pub mod Jobs
pub mod Ledger
pub mod Tenant
pub mod Hashtags
pub mod Categories
pub mod HomeBalance
pub mod Accounts
pub mod References
pub mod HomeCurrency
pub mod Reports
pub mod Reconciliations
pub mod Inbox
pub mod Calls
pub mod Idempotency
pub mod Tests
