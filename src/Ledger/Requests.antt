-- ===== src/Ledger/Requests.antt =====
-- The request models of app/schemas/transactions.py, and the one reader of a sign.
use expense_world_engine.Base.{ℕ, Bool, Option, List, ◌&&◌, is_none, if◌then◌else◌}
use expense_world_engine.Base.Int.{ℤ, is_negative}
use expense_world_engine.Schema.{Text, TransactionType, outflow, inflow}

pub record TransactionCreateRequest : Type 0 where
  pub id : ℕ
  pub title : Text
  pub amount_cents : ℤ
  pub date : ℕ
  pub account_id : ℕ
  pub category_id : ℕ
  pub description : Option Text
  -- an omitted list acts as the empty one
  pub hashtag_ids : List ℕ

-- The dict of the fields that a PUT sent, without `hashtag_ids` and `reconciliation_id`.
pub record TransactionFields : Type 0 where
  pub title : Option Text
  pub amount_cents : Option ℤ
  pub date : Option ℕ
  pub account_id : Option ℕ
  pub category_id : Option ℕ
  pub description : Option Text

-- `not fields`
abbrev pub is_empty : TransactionFields → Bool
is_empty f =
    is_none f.title
    && (is_none f.amount_cents
        && (is_none f.date
            && (is_none f.account_id && (is_none f.category_id && is_none f.description))))

unfoldable pub infer_transaction_type : ℤ → TransactionType
infer_transaction_type amount_cents = if is_negative amount_cents then outflow else inflow
