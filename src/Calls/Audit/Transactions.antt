-- ===== src/Calls/Audit/Transactions.antt =====
-- The ledger's service functions of app/helpers/transactions.py, each with the log entry it ends in.
use expense_world_engine.Base.{ℕ, Bool, Option, List}
use expense_world_engine.Schema.{Db, Transaction, TransactionResponse}
use expense_world_engine.Exec.Keeps.{Keeps}
use expense_world_engine.Query.Owned.{fetch_owned_row_or_404-Keeps}
use expense_world_engine.Validation.{db_now}
use expense_world_engine.Ledger.Keeps.{
  attach_hashtag_ids-Keeps, close-Keeps, reopen-Keeps, sync-Keeps, sync_if_any-Keeps,
  validate_active_account-Keeps, validate_active_category-Keeps, insert_transaction_row-Keeps,
  check_field_lock-Keeps, check_assignment-Keeps, check_columns-Keeps, check_delete_lock-Keeps,
  check_prerequisites-Keeps, resolve_reconciliation-Keeps,
}
use expense_world_engine.Ledger.Requests.{TransactionCreateRequest, TransactionFields}
use expense_world_engine.Ledger.Rows.{NewTransaction, insert_transaction_row}
use expense_world_engine.Ledger.Create.{create_transaction, sync_if_any}
use expense_world_engine.Ledger.Edit.{apply_update, update_nonempty}
use expense_world_engine.Ledger.Remove.{
  close_transaction, delete_transaction, reopen_transaction, restore_transaction,
}
use expense_world_engine.Calls.Keeps.{SurvivesCalls}
use expense_world_engine.Calls.Audit.{Appends, Appends-SurvivesCalls}
use expense_world_engine.Calls.Audit.Logs.{Logs, logs_rules}

module _ (u : ℕ) (a : Db) where
  survives : SurvivesCalls u (Appends u a)
  survives = Appends-SurvivesCalls u a

  pub insert_row-Appends : (n : NewTransaction) → Keeps (Appends u a) (insert_transaction_row u n)
  insert_row-Appends = insert_transaction_row-Keeps survives.side survives.insert_transaction

  pub tags-Appends : (i : ℕ) (ids : List ℕ) → Keeps (Appends u a) (sync_if_any u i ids)
  tags-Appends = sync_if_any-Keeps survives.side

  pub create_transaction-Logs :
      (body : TransactionCreateRequest) (allowed : Bool)
      → Logs u a (create_transaction u body allowed)
  unfolding create_transaction db_now
  create_transaction-Logs body allowed =
      search
        (
          logs_rules, validate_active_account-Keeps, validate_active_category-Keeps,
          insert_row-Appends, tags-Appends, attach_hashtag_ids-Keeps,
        )
        depth 20

  apply_update-Logs :
      (i : ℕ) (f : TransactionFields) (ids : Option (List ℕ)) (recon : Option (Option ℕ))
      (before : TransactionResponse)
      → Logs u a (apply_update u i f ids recon before)
  unfolding apply_update
  apply_update-Logs i f ids recon before =
      let edit = survives.edit_transaction in
      let sync = sync-Keeps survives.side in
      search (logs_rules, edit, sync, attach_hashtag_ids-Keeps) depth 14

  pub update_nonempty-Logs :
      (i : ℕ) (f : TransactionFields) (ids : Option (List ℕ)) (recon : Option (Option ℕ))
      → Logs u a (update_nonempty u i f ids recon)
  unfolding update_nonempty
  update_nonempty-Logs i f ids recon =
      search
        (
          logs_rules, fetch_owned_row_or_404-Keeps, attach_hashtag_ids-Keeps,
          check_field_lock-Keeps, check_assignment-Keeps, check_columns-Keeps, apply_update-Logs,
        )
        depth 14

  close_transaction-Logs : (i : ℕ) (row : Transaction) → Logs u a (close_transaction u i row)
  unfolding close_transaction
  close_transaction-Logs i row =
      let close = survives.close_transaction in
      let cascade = close-Keeps survives.side in
      search (logs_rules, attach_hashtag_ids-Keeps, close, cascade) depth 14

  pub delete_transaction-Logs : (i : ℕ) → Logs u a (delete_transaction u i)
  unfolding delete_transaction
  delete_transaction-Logs i =
      search
        (logs_rules, fetch_owned_row_or_404-Keeps, check_delete_lock-Keeps, close_transaction-Logs)
        depth 10

  reopen_transaction-Logs :
      (i : ℕ) (row : Transaction) (unlink : Bool) → Logs u a (reopen_transaction u i row unlink)
  unfolding reopen_transaction
  reopen_transaction-Logs i row unlink =
      let reopens = survives.reopen_transaction in
      let cascade = reopen-Keeps survives.side in
      search (logs_rules, attach_hashtag_ids-Keeps, reopens, cascade) depth 14

  pub restore_transaction-Logs : (i : ℕ) → Logs u a (restore_transaction u i)
  unfolding restore_transaction
  restore_transaction-Logs i =
      search
        (
          logs_rules, fetch_owned_row_or_404-Keeps, check_prerequisites-Keeps,
          resolve_reconciliation-Keeps, reopen_transaction-Logs,
        )
        depth 10
