-- ===== src/Ledger/Create.antt =====
-- `create_transaction` and `create_batch`.
use expense_world_engine.Base.{
  ℕ, suc, Bool, true, not, ◌&&◌, Option, none, some, List, [], ◌∷◌, ◌++◌, exists, find, ltb,
  is_none, is_some, or_else, if◌then◌else◌,
}
use expense_world_engine.Base.Int.{abs, is_zero}
use expense_world_engine.Schema.{
  Transaction, Category, TransactionResponse, created, ledger, Resource, Snapshot, Db,
}
use expense_world_engine.Exec.{
  Exec, Field, Msg, title, amount_cents, date, account_id, category_id, id, transactions, not_empty,
  not_zero, not_future, user_category, active_account, active_category, duplicate_in_batch,
  at_least_one, validation_failed, AppError, validation_code, items, validation_error, pure, raise,
  gets, raise_if, raise_errors, ◌>>=◌, ◌>>◌,
}
use expense_world_engine.Text.{clean_name}
use expense_world_engine.Query.{write_activity_log}
use expense_world_engine.Validation.{
  flag, db_now, validate_active_account, validate_active_category, is_active_account,
  is_active_category,
}
use expense_world_engine.Links.{elem, sync_hashtags}
use expense_world_engine.Ledger.Requests.{TransactionCreateRequest, infer_transaction_type}
use expense_world_engine.Ledger.Rows.{NewTransaction, insert_transaction_row, attach_hashtag_ids}

-- The checks of a request's own fields, all collected.
unfoldable pub field_errors : ℕ → TransactionCreateRequest → List (Field × Msg)
field_errors now body =
    flag (is_none (clean_name (some body.title))) title not_empty
    ++ (flag (is_zero body.amount_cents) amount_cents not_zero
        ++ flag (ltb now body.date) date not_future)

-- The storage forms: the title is stripped, the sign becomes the type.
abbrev pub storage_form : TransactionCreateRequest → NewTransaction
storage_form body = record {
  id = body.id;
  title = or_else (clean_name (some body.title)) [];
  description = body.description;
  amount_cents = abs body.amount_cents;
  transaction_type = infer_transaction_type body.amount_cents;
  date = body.date;
  account_id = body.account_id;
  category_id = body.category_id;
  inbox_id = none;
}

-- `if body.hashtag_ids: await sync_hashtags(…)`
abbrev pub sync_if_any : ℕ → ℕ → List ℕ → Exec Unit
sync_if_any u i [] = pure tt
sync_if_any u i (h ∷ ids) = sync_hashtags u i (h ∷ ids) ledger

abbrev pub log_created : ℕ → TransactionResponse → Exec Unit
log_created u response =
    write_activity_log u Resource.transaction response.row.id created none
      (some (Snapshot.transaction response))

unfoldable pub create_transaction : ℕ → TransactionCreateRequest → Bool → Exec TransactionResponse
create_transaction u body allow_system_category = do
  now ← db_now
  raise_errors validation_failed (field_errors now body)
  validate_active_account body.account_id u
  category ← validate_active_category body.category_id u
  raise_if (not allow_system_category && is_some category.system_key)
      (validation_error validation_failed ((category_id, user_category) ∷ []))
  row ← insert_transaction_row u (storage_form body)
  sync_if_any u row.id body.hashtag_ids
  response ← attach_hashtag_ids row ledger
  log_created u response
  pure response

-- The category's arm: membership answers "active?", the value "system?".
abbrev pub category_errors : Option Category → List (Field × Msg)
category_errors none = (category_id, active_category) ∷ []
category_errors (some c) = flag (is_some c.system_key) category_id user_category

unfoldable pub item_errors : Db → ℕ → List ℕ → TransactionCreateRequest → List (Field × Msg)
unfolding field_errors
item_errors db u seen item =
    field_errors db.now item
    ++ (flag (not (exists (is_active_account item.account_id u) db.accounts)) account_id
          active_account
        ++ (category_errors (find (is_active_category item.category_id u) db.categories)
            ++ flag (elem item.id seen) id duplicate_in_batch))

-- The pre-validation loop: the items with errors, with their indices.
unfoldable pub batch_errors :
    Db → ℕ → List ℕ → ℕ → List TransactionCreateRequest → List (ℕ × List (Field × Msg))
unfolding item_errors
batch_errors db u seen i [] = []
batch_errors db u seen i (item ∷ rest) =
    let later = batch_errors db u (item.id ∷ seen) (suc i) rest in
    elim (item_errors db u seen item) [ [] ↦ later | e ∷ es ↦ (i, e ∷ es) ∷ later ]

unfoldable pub insert_items : ℕ → List TransactionCreateRequest → Exec (List Transaction)
insert_items u [] = pure []
insert_items u (item ∷ rest) = do
  row ← insert_transaction_row u (storage_form item)
  sync_if_any u row.id item.hashtag_ids
  rows ← insert_items u rest
  pure (row ∷ rows)

-- One read resolves the tags of the whole batch, before any of its log entries.
unfoldable pub attach_all : List Transaction → Exec (List TransactionResponse)
attach_all [] = pure []
attach_all (row ∷ rows) = do
  response ← attach_hashtag_ids row ledger
  responses ← attach_all rows
  pure (response ∷ responses)

unfoldable pub log_all : ℕ → List TransactionResponse → Exec Unit
log_all u [] = pure tt
log_all u (response ∷ rest) = log_created u response >> log_all u rest

abbrev batch_error : List (ℕ × List (Field × Msg)) → AppError
batch_error es = record {
  status_code = 422;
  code = validation_code;
  message = validation_failed;
  fields = items es;
}

unfoldable pub create_batch : ℕ → List TransactionCreateRequest → Exec (List TransactionResponse)
create_batch u [] = raise (validation_error validation_failed ((transactions, at_least_one) ∷ []))
create_batch u (item ∷ rest) = do
  errors ← gets (λ db. batch_errors db u [] 0 (item ∷ rest))
  if exists (λ _. true) errors then raise (batch_error errors) else pure tt
  rows ← insert_items u (item ∷ rest)
  responses ← attach_all rows
  log_all u responses
  pure responses
