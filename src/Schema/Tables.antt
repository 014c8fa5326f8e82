-- ===== src/Schema/Tables.antt =====
-- What the generic helpers of app/helpers/query_builder.py need of a table: where it stands in the
-- database, and its id, owner and soft-delete columns. The code passes the table's name; the model
-- passes this interface.
use expense_world_engine.Base.{ℕ, suc, Option, List}
use expense_world_engine.Schema.Rows.{
  Account, Category, Hashtag, Transaction, InboxItem, Reconciliation,
}
use expense_world_engine.Schema.Responses.{Db}

pub record Table (R : Type 0) : Type 0 where
  pub rows : Db → List R
  pub with_rows : Db → List R → Db
  pub id_of : R → ℕ
  pub owner_of : R → ℕ
  pub deleted_of : R → Option ℕ
  pub version_of : R → ℕ
  -- SET updated_at = now(), version = version + 1
  pub touched : ℕ → R → R
  -- SET deleted_at = …
  pub with_deleted : Option ℕ → R → R

abbrev pub accounts : Table Account
accounts = record {
  rows = λ db. db.accounts;
  with_rows = λ db l. record db { accounts = l };
  id_of = λ r. r.id;
  owner_of = λ r. r.user_id;
  deleted_of = λ r. r.deleted_at;
  version_of = λ r. r.version;
  touched = λ now r. record r { updated_at = now; version = suc r.version };
  with_deleted = λ d r. record r { deleted_at = d };
}

abbrev pub categories : Table Category
categories = record {
  rows = λ db. db.categories;
  with_rows = λ db l. record db { categories = l };
  id_of = λ r. r.id;
  owner_of = λ r. r.user_id;
  deleted_of = λ r. r.deleted_at;
  version_of = λ r. r.version;
  touched = λ now r. record r { updated_at = now; version = suc r.version };
  with_deleted = λ d r. record r { deleted_at = d };
}

abbrev pub hashtags : Table Hashtag
hashtags = record {
  rows = λ db. db.hashtags;
  with_rows = λ db l. record db { hashtags = l };
  id_of = λ r. r.id;
  owner_of = λ r. r.user_id;
  deleted_of = λ r. r.deleted_at;
  version_of = λ r. r.version;
  touched = λ now r. record r { updated_at = now; version = suc r.version };
  with_deleted = λ d r. record r { deleted_at = d };
}

abbrev pub transactions : Table Transaction
transactions = record {
  rows = λ db. db.transactions;
  with_rows = λ db l. record db { transactions = l };
  id_of = λ r. r.id;
  owner_of = λ r. r.user_id;
  deleted_of = λ r. r.deleted_at;
  version_of = λ r. r.version;
  touched = λ now r. record r { updated_at = now; version = suc r.version };
  with_deleted = λ d r. record r { deleted_at = d };
}

abbrev pub inbox : Table InboxItem
inbox = record {
  rows = λ db. db.inbox;
  with_rows = λ db l. record db { inbox = l };
  id_of = λ r. r.id;
  owner_of = λ r. r.user_id;
  deleted_of = λ r. r.deleted_at;
  version_of = λ r. r.version;
  touched = λ now r. record r { updated_at = now; version = suc r.version };
  with_deleted = λ d r. record r { deleted_at = d };
}

abbrev pub reconciliations : Table Reconciliation
reconciliations = record {
  rows = λ db. db.reconciliations;
  with_rows = λ db l. record db { reconciliations = l };
  id_of = λ r. r.id;
  owner_of = λ r. r.user_id;
  deleted_of = λ r. r.deleted_at;
  version_of = λ r. r.version;
  touched = λ now r. record r { updated_at = now; version = suc r.version };
  with_deleted = λ d r. record r { deleted_at = d };
}
