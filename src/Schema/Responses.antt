-- ===== src/Schema/Responses.antt =====
-- The dicts that the serializers build from rows (app/schemas/*.py `*_from_row`), the audit rows
-- and the database.
use expense_world_engine.Base.{ℕ, Bool, Option, List, [], is_some}
use expense_world_engine.Base.Int.{ℤ}
use expense_world_engine.Schema.Rows.{
  Text, ActivityAction, Account, Category, Hashtag, Transaction, InboxItem, Junction,
  Reconciliation, ExchangeRate, UserSettings,
}

-- The row's columns, with the junction flattened to an array.
pub record TransactionResponse : Type 0 where
  pub row : Transaction
  pub hashtag_ids : List ℕ

abbrev pub transaction_from_row : Transaction → TransactionResponse
transaction_from_row r = record { row = r; hashtag_ids = [] }

pub record InboxResponse : Type 0 where
  pub row : InboxItem
  pub hashtag_ids : List ℕ

abbrev pub inbox_from_row : InboxItem → InboxResponse
inbox_from_row r = record { row = r; hashtag_ids = [] }

-- `difference_cents` comes with every SELECT of a reconciliation.
pub record ReconciliationResponse : Type 0 where
  pub row : Reconciliation
  pub difference_cents : ℤ

-- The balance is supplied, never read off the row.
pub record AccountResponse : Type 0 where
  pub row : Account
  pub current_balance_cents : ℤ
  pub current_balance_home_cents : Option ℤ

abbrev pub account_from_row : Account → ℤ → Option ℤ → AccountResponse
account_from_row r balance home = record {
  row = r;
  current_balance_cents = balance;
  current_balance_home_cents = home;
}

pub record CategoryResponse : Type 0 where
  pub row : Category
  pub is_system : Bool

abbrev pub category_from_row : Category → CategoryResponse
category_from_row r = record { row = r; is_system = is_some r.system_key }

pub data Resource : Type 0 where
  transaction inbox_item reconciliation hashtag category account : Resource

pub data Snapshot : Type 0 where
  transaction : TransactionResponse → Snapshot
  inbox_item : InboxResponse → Snapshot
  reconciliation : ReconciliationResponse → Snapshot
  hashtag : Hashtag → Snapshot
  category : CategoryResponse → Snapshot
  account : AccountResponse → Snapshot

-- activity_log, but for the random id of its rows
pub record LogEntry : Type 0 where
  pub user_id : ℕ
  pub resource_type : Resource
  pub resource_id : ℕ
  pub action : ActivityAction
  pub before_snapshot : Option Snapshot
  pub after_snapshot : Option Snapshot
  pub changed_by : ℕ
  pub created_at : ℕ

-- One state of the database, in a transaction whose `now()` is `now`.
pub record Db : Type 0 where
  pub accounts : List Account
  pub categories : List Category
  pub hashtags : List Hashtag
  pub transactions : List Transaction
  pub inbox : List InboxItem
  pub junctions : List Junction
  pub reconciliations : List Reconciliation
  pub global_currencies : List Text
  pub exchange_rates : List ExchangeRate
  pub user_settings : List UserSettings
  pub activity_log : List LogEntry
  pub now : ℕ
