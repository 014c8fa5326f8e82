-- ===== src/Ledger/Balance.antt =====
-- `fetch_balance` of app/helpers/account_balance.py over `SIGNED_CENTS_EXPR` of
-- app/helpers/home_currency.py: the signed sum of an account's transactions that are not deleted.
pub mod Effects
pub mod Moves
pub mod Changes
pub mod Batch
use expense_world_engine.Base.{
  ℕ, ◌≡◌, Bool, true, false, ◌&&◌, Option, none, some, List, [], ◌∷◌, select, ◌==◌, is_none,
  if◌then◌else◌,
}
use expense_world_engine.Base.Int.{ℤ, pos, neg_ℕ}
use expense_world_engine.Base.Sums.{sum_by}
use expense_world_engine.Schema.{Transaction, TransactionType, outflow, inflow, Db}
use expense_world_engine.Exec.{Exec, gets}

abbrev pub signed : TransactionType → ℕ → ℤ
signed inflow n = pos n
signed outflow n = neg_ℕ n

abbrev pub signed_cents : Transaction → ℤ
signed_cents t = signed t.transaction_type t.amount_cents

-- WHERE user_id = $1 AND deleted_at IS NULL AND account_id = $2
abbrev pub counts_for : ℕ → ℕ → Transaction → Bool
counts_for u a t = (t.user_id == u && t.account_id == a) && is_none t.deleted_at

unfoldable pub balance_of : ℕ → ℕ → List Transaction → ℤ
balance_of u a ts = sum_by signed_cents (select (counts_for u a) ts)

unfoldable pub fetch_balance : ℕ → ℕ → Exec ℤ
fetch_balance u a = gets (λ db. balance_of u a db.transactions)
