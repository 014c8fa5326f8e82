-- ===== src/Tests/Data.antt =====
-- User 1 has an account, a category, a tag, a completed reconciliation with one assigned outflow, a
-- free inflow and a deleted row.
use expense_world_engine.Base.{refl, exists, Bool, none, some, [], ◌∷◌}
use expense_world_engine.Base.Int.{pos, negsuc}
use expense_world_engine.Schema.{
  InboxItem, pending, ledger, Db, Account, Category, Hashtag, Transaction, Reconciliation, outflow,
  inflow, completed,
}
use expense_world_engine.Base.Sums.{IsUnique}
use expense_world_engine.Ledger.Requests.{TransactionCreateRequest, TransactionFields}

abbrev pub cash : Account
cash = record {
  id = 10;
  user_id = 1;
  name = 67 ∷ [];
  currency_code = 80 ∷ 69 ∷ 78 ∷ [];
  is_person = Bool.false;
  color = [];
  is_archived = Bool.false;
  sort_order = pos 0;
  created_at = 1;
  updated_at = 1;
  version = 1;
  deleted_at = none;
}

abbrev pub food : Category
food = record {
  id = 20;
  user_id = 1;
  name = 70 ∷ [];
  color = [];
  system_key = none;
  sort_order = pos 0;
  created_at = 1;
  updated_at = 1;
  version = 1;
  deleted_at = none;
}

abbrev pub lunch_tag : Hashtag
lunch_tag = record {
  id = 30;
  user_id = 1;
  name = 76 ∷ [];
  sort_order = pos 0;
  created_at = 1;
  updated_at = 1;
  version = 1;
  deleted_at = none;
}

abbrev pub august : Reconciliation
august = record {
  id = 50;
  user_id = 1;
  account_id = 10;
  name = 65 ∷ [];
  date_start = none;
  date_end = none;
  status = completed;
  beginning_balance_cents = pos 1000;
  ending_balance_cents = pos 700;
  created_at = 1;
  updated_at = 2;
  version = 2;
  deleted_at = none;
}

-- The assigned outflow of 3.00
abbrev pub dinner : Transaction
dinner = record {
  id = 100;
  user_id = 1;
  title = 68 ∷ [];
  description = none;
  amount_cents = 300;
  transaction_type = outflow;
  date = 5;
  account_id = 10;
  category_id = 20;
  inbox_id = none;
  reconciliation_id = some 50;
  created_at = 1;
  updated_at = 1;
  version = 1;
  deleted_at = none;
}

-- The free inflow of 9.00
abbrev pub salary : Transaction
salary = record {
  id = 101;
  user_id = 1;
  title = 83 ∷ [];
  description = none;
  amount_cents = 900;
  transaction_type = inflow;
  date = 6;
  account_id = 10;
  category_id = 20;
  inbox_id = none;
  reconciliation_id = none;
  created_at = 1;
  updated_at = 1;
  version = 1;
  deleted_at = none;
}

-- The deleted outflow of 0.50
abbrev pub coffee : Transaction
coffee = record {
  id = 102;
  user_id = 1;
  title = 67 ∷ [];
  description = none;
  amount_cents = 50;
  transaction_type = outflow;
  date = 7;
  account_id = 10;
  category_id = 20;
  inbox_id = none;
  reconciliation_id = none;
  created_at = 1;
  updated_at = 8;
  version = 2;
  deleted_at = some 8;
}

abbrev pub books : Db
books = record {
  accounts = cash ∷ [];
  categories = food ∷ [];
  hashtags = lunch_tag ∷ [];
  transactions = coffee ∷ salary ∷ dinner ∷ [];
  inbox = [];
  junctions = [];
  reconciliations = august ∷ [];
  global_currencies = (80 ∷ 69 ∷ 78 ∷ []) ∷ (85 ∷ 83 ∷ 68 ∷ []) ∷ [];
  exchange_rates = [];
  user_settings = [];
  activity_log = [];
  now = 10;
}

pub books-IsUnique : IsUnique (λ (t : Transaction). t.id) books.transactions
unfolding exists
books-IsUnique = (refl, (refl, (refl, tt)))

abbrev pub snack : TransactionCreateRequest
snack = record {
  id = 103;
  title = 83 ∷ [];
  amount_cents = negsuc 199;
  date = 9;
  account_id = 10;
  category_id = 20;
  description = none;
  hashtag_ids = 30 ∷ [];
}

-- A new amount: an outflow of 1.00
abbrev pub new_amount : TransactionFields
new_amount = record {
  title = none;
  amount_cents = some (negsuc 99);
  date = none;
  account_id = none;
  category_id = none;
  description = none;
}

-- A ready draft of 4.00
abbrev pub draft_item : InboxItem
draft_item = record {
  id = 60;
  user_id = 1;
  title = some (84 ∷ []);
  description = none;
  amount_cents = some 400;
  transaction_type = some outflow;
  date = some 9;
  account_id = some 10;
  category_id = some 20;
  status = pending;
  created_at = 1;
  updated_at = 1;
  version = 1;
  deleted_at = none;
}

abbrev pub drafted : Db
drafted = record books { inbox = draft_item ∷ [] }

-- The tag on the inflow
abbrev pub tagged : Db
tagged = record books {
  junctions =
      record {
        transaction_id = 101;
        transaction_source = ledger;
        hashtag_id = 30;
        user_id = 1;
        created_at = 1;
        updated_at = 1;
        deleted_at = none;
      }
      ∷ [];
}
