-- ===== src/Ledger.antt =====
-- app/helpers/transactions.py: the ledger's service functions, and the balances that
-- app/helpers/account_balance.py reads off it.
pub mod Requests
pub mod Rows
pub mod Create
pub mod Accepts
pub mod Edit
pub mod Remove
pub mod Balance
pub mod Keeps
