-- ===== src/Tests/Runs.antt =====
-- The laws of the ledger on a small database.
use expense_world_engine.Base.{
  ◌≡◌, refl, false, none, some, List, [], ◌∷◌, find, exists, select, update_where,
}
use expense_world_engine.Base.Int.{pos, negsuc, abs, ◌+ℤ◌}
use expense_world_engine.Base.Sums.{sum_by}
use expense_world_engine.Schema.{Db, TransactionResponse, outflow}
use expense_world_engine.Exec.{Result, ok, ◌>>=◌}
use expense_world_engine.Query.{
  fetch_owned_row, fetch_owned_row_or_404, update_rows, update_returning, dynamic_update,
  soft_delete, restore, write_activity_log,
}
use expense_world_engine.Text.{lstrip, strip, clean_name}
use expense_world_engine.Validation.{
  validate_active_account, validate_active_category, normalize_name, reject_zero_amount, db_now,
  active_account_row, active_category_row,
}
use expense_world_engine.Links.{
  elem, sort_ids, linked_ids, fetch_hashtag_ids, cascade_delete, cascade_restore, invalid_hashtags,
  upsert_link, upsert_links, sync_hashtags,
}
use expense_world_engine.Ledger.Requests.{infer_transaction_type}
use expense_world_engine.Ledger.Rows.{
  fetch_recon_status, attach_hashtag_ids, insert_transaction_row,
}
use expense_world_engine.Ledger.Create.{field_errors, create_transaction}
use expense_world_engine.Ledger.Edit.{
  attempted, check_field_lock, check_assignment, check_columns, apply_update, update_nonempty,
  update_transaction,
}
use expense_world_engine.Ledger.Remove.{
  check_delete_lock, close_transaction, delete_transaction, check_prerequisites,
  resolve_reconciliation, reopen_transaction, restore_transaction, Warning,
}
use expense_world_engine.Ledger.Balance.{balance_of, signed}
use expense_world_engine.Ledger.Balance.Effects.{contribution}
use expense_world_engine.Ledger.Balance.Changes
use expense_world_engine.Tests.Data.{books, books-IsUnique, snack, salary, coffee, new_amount}

abbrev created_snack : Result TransactionResponse × Db
created_snack = create_transaction 1 snack false books

balance_test : balance_of 1 10 books.transactions ≡ pos 600
unfolding balance_of select sum_by ◌+ℤ◌
balance_test = refl

abbrev snack_response : TransactionResponse
snack_response = record {
  row = record {
    id = 103;
    user_id = 1;
    title = 83 ∷ [];
    description = none;
    amount_cents = 200;
    transaction_type = infer_transaction_type snack.amount_cents;
    date = 9;
    account_id = 10;
    category_id = 20;
    inbox_id = none;
    reconciliation_id = none;
    created_at = 10;
    updated_at = 10;
    version = 1;
    deleted_at = none;
  };
  hashtag_ids = 30 ∷ [];
}

snack_runs : create_transaction 1 snack false books ≡ (ok snack_response, created_snack.1)
unfolding create_transaction ◌>>=◌ db_now field_errors clean_name strip lstrip
    validate_active_account active_account_row validate_active_category active_category_row
    insert_transaction_row sync_hashtags cascade_delete upsert_links upsert_link invalid_hashtags
    fetch_hashtag_ids attach_hashtag_ids linked_ids sort_ids elem find exists select update_where
    write_activity_log infer_transaction_type
snack_runs = refl

create_transaction-balance_of_example :
    balance_of 1 10 created_snack.1.transactions
    ≡ snack.amount_cents +ℤ balance_of 1 10 books.transactions
create_transaction-balance_of_example =
    Changes.create_transaction-balance_of 1 snack false books snack_response created_snack.1
      snack_runs 1 10

abbrev edited_salary : Result TransactionResponse × Db
edited_salary = update_transaction 1 101 new_amount none none books

abbrev edited_response : TransactionResponse
edited_response = record {
  row = record salary {
    amount_cents = 100;
    transaction_type = outflow;
    updated_at = 10;
    version = 2;
  };
  hashtag_ids = [];
}

edit_runs :
    update_transaction 1 101 new_amount none none books ≡ (ok edited_response, edited_salary.1)
unfolding ◌>>=◌ db_now clean_name strip lstrip validate_active_account active_account_row
    validate_active_category active_category_row sync_hashtags cascade_delete cascade_restore
    upsert_links upsert_link invalid_hashtags fetch_hashtag_ids attach_hashtag_ids linked_ids
    sort_ids elem find exists select update_where write_activity_log infer_transaction_type
    fetch_owned_row fetch_owned_row_or_404 update_rows update_returning dynamic_update soft_delete
    restore reject_zero_amount normalize_name fetch_recon_status update_transaction update_nonempty
    check_field_lock check_assignment check_columns apply_update attempted
edit_runs = refl

update_transaction-balance_of_example :
    balance_of 1 10 edited_salary.1.transactions +ℤ contribution 1 10 salary
    ≡ balance_of 1 10 books.transactions +ℤ Changes.requested 1 new_amount salary 1 10
unfolding find
update_transaction-balance_of_example =
    Changes.update_transaction-balance_of 1 101 books salary books-IsUnique refl new_amount none
      none edited_response edited_salary.1 edit_runs 1 10

abbrev deleted_salary : Result TransactionResponse × Db
deleted_salary = delete_transaction 1 101 books

abbrev deleted_response : TransactionResponse
deleted_response = record {
  row = record salary { updated_at = 10; version = 2; deleted_at = some 10 };
  hashtag_ids = [];
}

delete_runs : delete_transaction 1 101 books ≡ (ok deleted_response, deleted_salary.1)
unfolding ◌>>=◌ db_now clean_name strip lstrip validate_active_account active_account_row
    validate_active_category active_category_row sync_hashtags cascade_delete cascade_restore
    upsert_links upsert_link invalid_hashtags fetch_hashtag_ids attach_hashtag_ids linked_ids
    sort_ids elem find exists select update_where write_activity_log infer_transaction_type
    fetch_owned_row fetch_owned_row_or_404 update_rows update_returning dynamic_update soft_delete
    restore reject_zero_amount normalize_name fetch_recon_status delete_transaction
    close_transaction check_delete_lock
delete_runs = refl

delete_transaction-balance_of_example :
    balance_of 1 10 deleted_salary.1.transactions +ℤ contribution 1 10 salary
    ≡ balance_of 1 10 books.transactions
unfolding find
delete_transaction-balance_of_example =
    Changes.delete_transaction-balance_of 1 101 books salary books-IsUnique refl deleted_response
      deleted_salary.1 delete_runs 1 10

abbrev restored_coffee : Result (TransactionResponse × List Warning) × Db
restored_coffee = restore_transaction 1 102 books

abbrev restored_response : TransactionResponse
restored_response = record {
  row = record coffee { updated_at = 10; version = 3; deleted_at = none };
  hashtag_ids = [];
}

restore_runs : restore_transaction 1 102 books ≡ (ok (restored_response, []), restored_coffee.1)
unfolding ◌>>=◌ db_now clean_name strip lstrip validate_active_account active_account_row
    validate_active_category active_category_row sync_hashtags cascade_delete cascade_restore
    upsert_links upsert_link invalid_hashtags fetch_hashtag_ids attach_hashtag_ids linked_ids
    sort_ids elem find exists select update_where write_activity_log infer_transaction_type
    fetch_owned_row fetch_owned_row_or_404 update_rows update_returning dynamic_update soft_delete
    restore reject_zero_amount normalize_name fetch_recon_status restore_transaction
    reopen_transaction check_prerequisites resolve_reconciliation
restore_runs = refl

restore_transaction-balance_of_example :
    balance_of 1 10 restored_coffee.1.transactions
    ≡ balance_of 1 10 books.transactions +ℤ Changes.regained 1 coffee 1 10
unfolding find
restore_transaction-balance_of_example =
    Changes.restore_transaction-balance_of 1 102 books coffee books-IsUnique refl
      (restored_response, []) restored_coffee.1 restore_runs 1 10

signed-infer_transaction_type_example :
    signed (infer_transaction_type (negsuc 4)) (abs (negsuc 4)) ≡ negsuc 4
signed-infer_transaction_type_example = Changes.signed-infer_transaction_type (negsuc 4)
