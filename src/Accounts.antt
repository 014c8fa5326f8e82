-- ===== src/Accounts.antt =====
-- app/helpers/accounts.py: the service functions of accounts and people.
pub mod Guards
pub mod Opening
pub mod Names
mod Rows
unfoldable pub use Rows.*
use expense_world_engine.Base.{
  ℕ, Bool, false, true, not, ◌&&◌, Option, none, some, List, [], ◌∷◌, exists, ◌==◌, is_none,
  is_some, or_else, if◌then◌else◌,
}
use expense_world_engine.Base.Int.{ℤ, pos}
use expense_world_engine.Schema.{
  Text, Account, AccountResponse, account_from_row, Category, Transaction, TransactionResponse,
  SystemCategoryKey, opening_balance, created, updated, Resource, Snapshot, Db,
}
use expense_world_engine.Schema.Tables
use expense_world_engine.Exec.{
  Exec, Field, account_id, name_exists, already_exists, referenced, has_opening_balance,
  person_account, immutable_currency, validation_failed, validation_error, conflict, not_found,
  internal_error, pure, gets, modify, raise, raise_if, or_raise, for_some, ◌>>=◌, ◌>>◌,
}
use expense_world_engine.Text.{clean_name}
use expense_world_engine.Validation.{
  normalize_name, validate_color, currency_code_error, validate_active_account,
}
use expense_world_engine.Query.{
  fetch_owned_row_or_404, dynamic_update, update_returning, is_owned, soft_delete_with_audit,
  restore_with_audit, write_activity_log,
}
use expense_world_engine.Named.{
  Casing, NamedFields, is_empty, name_taken, choose_sort_order, check_rename, check_int4,
}
use expense_world_engine.Named
use expense_world_engine.Categories.{has_key, ensure_system_category}
use expense_world_engine.Ledger.Requests.{TransactionCreateRequest}
use expense_world_engine.Ledger.Create.{create_transaction}
use expense_world_engine.Ledger.Balance.{fetch_balance}
use expense_world_engine.HomeBalance.{HomeBalance}

-- An active row of the user that books on the account
abbrev pub books_on : ℕ → ℕ → Transaction → Bool
books_on u i t = (t.account_id == i && t.user_id == u) && is_none t.deleted_at

-- JOIN expense_categories c … WHERE c.system_key = $3 AND c.deleted_at IS NULL
abbrev pub is_opening_category : ℕ → Category → Bool
is_opening_category i c = c.id == i && (has_key opening_balance c && is_none c.deleted_at)

abbrev pub is_opening : Db → ℕ → ℕ → Transaction → Bool
is_opening db u i t =
    ((t.user_id == u && t.account_id == i) && is_none t.deleted_at)
    && exists (is_opening_category t.category_id) db.categories

pub record OpeningBalanceRequest : Type 0 where
  pub transaction_id : ℕ
  pub amount_cents : ℤ
  pub date : ℕ
  pub title : Option Text

-- "Opening balance"
abbrev opening_title : Text
opening_title =
    79 ∷ 112 ∷ 101 ∷ 110 ∷ 105 ∷ 110 ∷ 103 ∷ 32 ∷ 98 ∷ 97 ∷ 108 ∷ 97 ∷ 110 ∷ 99 ∷ 101 ∷ []

abbrev pub opening_request : ℕ → ℕ → OpeningBalanceRequest → TransactionCreateRequest
opening_request i category body = record {
  id = body.transaction_id;
  title = or_else (clean_name body.title) opening_title;
  amount_cents = body.amount_cents;
  date = body.date;
  account_id = i;
  category_id = category;
  description = none;
  hashtag_ids = [];
}

-- `fresh` is the random id of a seeded category.
unfoldable pub create_opening_balance :
    Casing → ℕ → ℕ → OpeningBalanceRequest → ℕ → Exec TransactionResponse
create_opening_balance c u i body fresh = do
  account ← validate_active_account i u
  raise_if account.is_person
      (validation_error validation_failed ((Field.account_id, person_account) ∷ []))
  existing ← gets (λ db. exists (is_opening db u i) db.transactions)
  raise_if existing (conflict has_opening_balance)
  category ← ensure_system_category c u opening_balance fresh
  create_transaction u (opening_request i category body) true

module _ (c : Casing) (h : HomeBalance) where
  open h use {home_balance}

  unfoldable pub create_account : ℕ → NewAccount → Exec AccountResponse
  create_account u n = do
    cleaned ← normalize_name n.name Field.name
    validate_color n.color
    message ← currency_code_error n.currency_code
    for_some message (pure tt)
        (λ m. raise (validation_error validation_failed ((Field.currency_code, m) ∷ [])))
    taken ← name_taken Named.accounts c u cleaned none (some n.currency_code)
    raise_if taken (conflict name_exists)
    order ← choose_sort_order Named.accounts u (some (in_section n.is_person)) n.sort_order
    row ← insert_account u n cleaned order
    home ← home_balance u row.currency_code (pos 0)
    write_activity_log u Resource.account row.id created none
        (some (snapshot (account_from_row row (pos 0) home)))
    pure (account_from_row row (pos 0) home)

  unfoldable pub fetch_account : ℕ → ℕ → Exec AccountResponse
  fetch_account u i = do
    row ← fetch_owned_row_or_404 Tables.accounts i u Resource.account false
    balance ← fetch_balance u i
    home ← home_balance u row.currency_code balance
    pure (account_from_row row balance home)

  unfoldable pub update_nonempty : ℕ → ℕ → NamedFields → Exec AccountResponse
  update_nonempty u i fields = do
    before_row ← fetch_owned_row_or_404 Tables.accounts i u Resource.account false
    renamed ←
        check_rename c Named.accounts u i (some before_row.currency_code) before_row fields.name
          (λ row n. pure tt)
    balance ← fetch_balance u i
    home ← home_balance u before_row.currency_code balance
    check_int4 fields.sort_order
    changed ← dynamic_update Tables.accounts (set_account (record fields { name = renamed })) i u
    after_row ← or_raise changed (not_found Resource.account)
    write_activity_log u Resource.account i updated
        (some (snapshot (account_from_row before_row balance home)))
        (some (snapshot (account_from_row after_row balance home)))
    pure (account_from_row after_row balance home)

  unfoldable pub update_account : ℕ → ℕ → AccountFields → Exec AccountResponse
  update_account u i fields = do
    validate_color fields.named.color
    raise_if (is_some fields.currency_code)
        (validation_error immutable_currency ((Field.currency_code, immutable_currency) ∷ []))
    if is_empty fields.named then fetch_account u i else update_nonempty u i fields.named

  unfoldable pub delete_account : ℕ → ℕ → Exec Snapshot
  delete_account u i = do
    row ← fetch_owned_row_or_404 Tables.accounts i u Resource.account false
    has_txns ← gets (λ db. exists (books_on u i) db.transactions)
    raise_if has_txns (conflict referenced)
    balance ← fetch_balance u i
    home ← home_balance u row.currency_code balance
    soft_delete_with_audit Tables.accounts u Resource.account row
        (λ r. pure (snapshot (account_from_row r balance home)))

  unfoldable pub restore_account : ℕ → ℕ → Exec Snapshot
  restore_account u i = do
    before_row ← fetch_owned_row_or_404 Tables.accounts i u Resource.account true
    taken ← name_taken Named.accounts c u before_row.name (some i) (some before_row.currency_code)
    raise_if taken (conflict name_exists)
    balance ← fetch_balance u i
    home ← home_balance u before_row.currency_code balance
    restore_with_audit Tables.accounts u Resource.account before_row
        (λ r. pure (snapshot (account_from_row r balance home)))

module _ (h : HomeBalance) where
  open h use {home_balance}

  -- `after_row` is the fetched row changed; a row that is gone meanwhile is a TypeError.
  unfoldable pub set_account_archive : ℕ → ℕ → Bool → Exec AccountResponse
  set_account_archive u i b = do
    before_row ← fetch_owned_row_or_404 Tables.accounts i u Resource.account false
    balance ← fetch_balance u i
    home ← home_balance u before_row.currency_code balance
    changed ← update_returning Tables.accounts (is_owned Tables.accounts i u) (archived b)
    after_row ← or_raise changed internal_error
    write_activity_log u Resource.account i updated
        (some (snapshot (account_from_row before_row balance home)))
        (some (snapshot (account_from_row after_row balance home)))
    pure (account_from_row after_row balance home)

  unfoldable pub archive_account : ℕ → ℕ → Exec AccountResponse
  archive_account u i = set_account_archive u i true

  unfoldable pub unarchive_account : ℕ → ℕ → Exec AccountResponse
  unarchive_account u i = set_account_archive u i false
