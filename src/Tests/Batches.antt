-- ===== src/Tests/Batches.antt =====
-- A batch on the small database.
use expense_world_engine.Base.{
  All, ◌≡◌, refl, none, List, [], ◌∷◌, find, exists, select, update_where,
}
use expense_world_engine.Base.Int.{pos, ◌+ℤ◌}
use expense_world_engine.Base.Sums.{sum_by}
use expense_world_engine.Schema.{Db, TransactionResponse, inflow, outflow}
use expense_world_engine.Exec.{Result, ok, pure, raise, gets, modify, lift, ◌>>=◌}
use expense_world_engine.Query.{write_activity_log}
use expense_world_engine.Text.{lstrip, strip, clean_name}
use expense_world_engine.Links.{
  elem, sort_ids, linked_ids, fetch_hashtag_ids, cascade_delete, invalid_hashtags, upsert_link,
  upsert_links, sync_hashtags,
}
use expense_world_engine.Ledger.Requests.{TransactionCreateRequest, infer_transaction_type}
use expense_world_engine.Ledger.Rows.{attach_hashtag_ids, insert_transaction_row}
use expense_world_engine.Ledger.Create.{
  field_errors, item_errors, batch_errors, insert_items, attach_all, log_all, create_batch,
}
use expense_world_engine.Ledger.Balance.{balance_of}
use expense_world_engine.Ledger.Balance.Batch
use expense_world_engine.Ledger.Accepts
use expense_world_engine.Tests.Data.{books, snack}

-- An inflow of 1.50
abbrev refund : TransactionCreateRequest
refund = record {
  id = 104;
  title = 82 ∷ [];
  amount_cents = pos 150;
  date = 9;
  account_id = 10;
  category_id = 20;
  description = none;
  hashtag_ids = [];
}

abbrev batched : Result (List TransactionResponse) × Db
batched = create_batch 1 (snack ∷ refund ∷ []) books

abbrev batch_responses : List TransactionResponse
batch_responses =
    record {
      row = record {
        id = 103;
        user_id = 1;
        title = 83 ∷ [];
        description = none;
        amount_cents = 200;
        transaction_type = outflow;
        date = 9;
        account_id = 10;
        category_id = 20;
        inbox_id = none;
        reconciliation_id = none;
        created_at = 10;
        updated_at = 10;
        version = 1;
        deleted_at = none;
      };
      hashtag_ids = 30 ∷ [];
    }
    ∷ record {
      row = record {
        id = 104;
        user_id = 1;
        title = 82 ∷ [];
        description = none;
        amount_cents = 150;
        transaction_type = inflow;
        date = 9;
        account_id = 10;
        category_id = 20;
        inbox_id = none;
        reconciliation_id = none;
        created_at = 10;
        updated_at = 10;
        version = 1;
        deleted_at = none;
      };
      hashtag_ids = [];
    }
    ∷ []

batch_runs : create_batch 1 (snack ∷ refund ∷ []) books ≡ (ok batch_responses, batched.1)
unfolding create_batch batch_errors item_errors field_errors insert_items attach_all log_all
    clean_name strip lstrip infer_transaction_type insert_transaction_row attach_hashtag_ids
    fetch_hashtag_ids linked_ids sort_ids elem sync_hashtags invalid_hashtags cascade_delete
    upsert_links upsert_link write_activity_log find exists select update_where ◌>>=◌ pure raise
    gets modify lift
batch_runs = refl

create_batch-balance_of_example :
    balance_of 1 10 batched.1.transactions
    ≡ sum_by (Batch.requested_cents 1 1 10) (snack ∷ refund ∷ [])
      +ℤ balance_of 1 10 books.transactions
create_batch-balance_of_example =
    Batch.create_batch-balance_of 1 (snack ∷ refund ∷ []) books batch_responses batched.1 batch_runs
      1 10

create_batch-IsAccepted_example :
    All (Accepts.IsAccepted books 1) (snack ∷ refund ∷ [])
    × Accepts.HasDistinctIds (Accepts.ids_of (snack ∷ refund ∷ []))
create_batch-IsAccepted_example =
    Accepts.create_batch-IsAccepted 1 (snack ∷ refund ∷ []) books batched.1 batch_responses
      batch_runs
