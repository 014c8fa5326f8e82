-- ===== src/Schema/Rows.antt =====
-- app/constants.py and the tables of sql/003 as the later migrations leave them.
use expense_world_engine.Base.{ℕ, Bool, Option, List}
use expense_world_engine.Base.Int.{ℤ}

abbrev pub Text : Type 0
Text = List ℕ

pub data TransactionType : Type 0 where
  outflow inflow : TransactionType

pub data TransactionSource : Type 0 where
  ledger inbox : TransactionSource

pub data ActivityAction : Type 0 where
  created updated deleted restored : ActivityAction

pub data ReconciliationStatus : Type 0 where
  draft completed : ReconciliationStatus

pub data InboxStatus : Type 0 where
  pending promoted : InboxStatus

pub data SystemCategoryKey : Type 0 where
  opening_balance : SystemCategoryKey

-- expense_bank_accounts
pub record Account : Type 0 where
  pub id : ℕ
  pub user_id : ℕ
  pub name : Text
  pub currency_code : Text
  pub is_person : Bool
  pub color : Text
  pub is_archived : Bool
  pub sort_order : ℤ
  pub created_at : ℕ
  pub updated_at : ℕ
  pub version : ℕ
  pub deleted_at : Option ℕ

-- expense_categories
pub record Category : Type 0 where
  pub id : ℕ
  pub user_id : ℕ
  pub name : Text
  pub color : Text
  pub system_key : Option SystemCategoryKey
  pub sort_order : ℤ
  pub created_at : ℕ
  pub updated_at : ℕ
  pub version : ℕ
  pub deleted_at : Option ℕ

-- expense_hashtags
pub record Hashtag : Type 0 where
  pub id : ℕ
  pub user_id : ℕ
  pub name : Text
  pub sort_order : ℤ
  pub created_at : ℕ
  pub updated_at : ℕ
  pub version : ℕ
  pub deleted_at : Option ℕ

-- expense_transactions: the magnitude is unsigned, the type carries the direction.
pub record Transaction : Type 0 where
  pub id : ℕ
  pub user_id : ℕ
  pub title : Text
  pub description : Option Text
  pub amount_cents : ℕ
  pub transaction_type : TransactionType
  pub date : ℕ
  pub account_id : ℕ
  pub category_id : ℕ
  pub inbox_id : Option ℕ
  pub reconciliation_id : Option ℕ
  pub created_at : ℕ
  pub updated_at : ℕ
  pub version : ℕ
  pub deleted_at : Option ℕ

-- expense_transaction_inbox
pub record InboxItem : Type 0 where
  pub id : ℕ
  pub user_id : ℕ
  pub title : Option Text
  pub description : Option Text
  pub amount_cents : Option ℕ
  pub transaction_type : Option TransactionType
  pub date : Option ℕ
  pub account_id : Option ℕ
  pub category_id : Option ℕ
  pub status : InboxStatus
  pub created_at : ℕ
  pub updated_at : ℕ
  pub version : ℕ
  pub deleted_at : Option ℕ

-- expense_transaction_hashtags: `transaction_source` says which table `transaction_id` names.
pub record Junction : Type 0 where
  pub transaction_id : ℕ
  pub transaction_source : TransactionSource
  pub hashtag_id : ℕ
  pub user_id : ℕ
  pub created_at : ℕ
  pub updated_at : ℕ
  pub deleted_at : Option ℕ

-- expense_reconciliations
pub record Reconciliation : Type 0 where
  pub id : ℕ
  pub user_id : ℕ
  pub account_id : ℕ
  pub name : Text
  pub date_start : Option ℕ
  pub date_end : Option ℕ
  pub status : ReconciliationStatus
  pub beginning_balance_cents : ℤ
  pub ending_balance_cents : ℤ
  pub created_at : ℕ
  pub updated_at : ℕ
  pub version : ℕ
  pub deleted_at : Option ℕ

-- exchange_rates: a numeric is its digits and their number after the point.
pub record Decimal : Type 0 where
  pub coefficient : ℕ
  pub places : ℕ

pub record ExchangeRate : Type 0 where
  pub base_currency : Text
  pub target_currency : Text
  pub rate : Decimal
  pub rate_date : ℕ

-- user_settings, the columns that the services read
pub record UserSettings : Type 0 where
  pub user_id : ℕ
  pub main_currency : Text
  pub display_timezone : Text
