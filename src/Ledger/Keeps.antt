-- ===== src/Ledger/Keeps.antt =====
-- The writes of app/helpers/transactions.py beside the ledger rows: junction rows and log entries.
-- For each service function, what an invariant owes for it.
use expense_world_engine.Base.{
  ℕ, ◌≡◌, refl, ◌==◌, exists, inl, inr, Bool-cases, Bool, false, Option, List, [], ◌∷◌,
}
use expense_world_engine.Base.Int.{ℤ}
use expense_world_engine.Schema.{
  Text, Db, Junction, LogEntry, Transaction, TransactionSource, TransactionResponse, Resource,
  Snapshot, ActivityAction, ledger,
}
use expense_world_engine.Schema.Tables
use expense_world_engine.Exec.{Field, ◌>>=◌}
use expense_world_engine.Exec.Keeps.{
  Keeps, Keeps-modify, Keeps-bind, Keeps-seq, Keeps-pure, keeps_rules,
}
use expense_world_engine.Query.{
  write_activity_log, soft_delete, dynamic_update, update_returning, is_owned,
}
use expense_world_engine.Query.Owned.{fetch_owned_row_or_404-Keeps}
use expense_world_engine.Validation.{
  validate_active_account, validate_active_category, active_account_row, active_category_row,
  db_now, normalize_name, reject_zero_amount,
}
use expense_world_engine.Links.{cascade_delete, cascade_restore, sync_hashtags}
use expense_world_engine.Links.Keeps.{
  sync_hashtags-Keeps, cascade_delete-Keeps, cascade_restore-Keeps, fetch_hashtag_ids-Keeps,
}
use expense_world_engine.Ledger.Requests.{TransactionCreateRequest, TransactionFields}
use expense_world_engine.Ledger.Rows.{
  NewTransaction, new_row, insert_transaction_row, attach_hashtag_ids, fetch_recon_status,
}
use expense_world_engine.Ledger.Create.{
  create_transaction, create_batch, insert_items, attach_all, log_all, sync_if_any,
}
use expense_world_engine.Ledger.Edit.{
  check_field_lock, check_assignment, check_columns, apply_update, fetch_unchanged, set_columns,
}
use expense_world_engine.Ledger.Remove.{
  check_delete_lock, close_transaction, check_prerequisites, resolve_reconciliation,
  reopen_transaction, reopen,
}

-- What an invariant owes for the writes beside the ledger rows.
pub record SurvivesSideWrites (u : ℕ) (P : Db → Type 0) : Type 0 where
  pub links : (js : List Junction) (db : Db) → P db → P (record db { junctions = js })
  pub log :
      (e : LogEntry) (db : Db)
      → (e.user_id ≡ u) × (e.changed_by ≡ u)
      → P db
      → P (record db { activity_log = e ∷ db.activity_log })

module _ {P : Db → Type 0} where
  pub attach_hashtag_ids-Keeps :
      (row : Transaction) (s : TransactionSource) → Keeps P (attach_hashtag_ids row s)
  unfolding attach_hashtag_ids
  attach_hashtag_ids-Keeps row s = search (keeps_rules, fetch_hashtag_ids-Keeps)

  pub validate_active_account-Keeps : (i u : ℕ) → Keeps P (validate_active_account i u)
  unfolding validate_active_account active_account_row
  validate_active_account-Keeps i u = search keeps_rules

  pub validate_active_category-Keeps : (i u : ℕ) → Keeps P (validate_active_category i u)
  unfolding validate_active_category active_category_row
  validate_active_category-Keeps i u = search keeps_rules

  pub normalize_name-Keeps : (t : Text) (f : Field) → Keeps P (normalize_name t f)
  unfolding normalize_name
  normalize_name-Keeps t f = search keeps_rules

  pub reject_zero_amount-Keeps : (v : ℤ) (f : Field) → Keeps P (reject_zero_amount v f)
  unfolding reject_zero_amount
  reject_zero_amount-Keeps v f = search keeps_rules

  pub check_field_lock-Keeps :
      (u : ℕ) (row : Transaction) (f : TransactionFields) (b : Bool)
      → Keeps P (check_field_lock u row f b)
  unfolding check_field_lock fetch_recon_status
  check_field_lock-Keeps u row f b = search keeps_rules depth 8

  pub check_assignment-Keeps :
      (u : ℕ) (row : Transaction) (f : TransactionFields) (recon : Option (Option ℕ))
      → Keeps P (check_assignment u row f recon)
  unfolding check_assignment
  check_assignment-Keeps u row f recon = search keeps_rules depth 8

  pub check_columns-Keeps : (u : ℕ) (f : TransactionFields) → Keeps P (check_columns u f)
  unfolding check_columns db_now
  check_columns-Keeps u f =
      search
        (
          keeps_rules, reject_zero_amount-Keeps, validate_active_account-Keeps,
          validate_active_category-Keeps, normalize_name-Keeps,
        )
        depth 12

  pub fetch_unchanged-Keeps : (u i : ℕ) → Keeps P (fetch_unchanged u i)
  unfolding fetch_unchanged
  fetch_unchanged-Keeps u i =
      search (keeps_rules, fetch_owned_row_or_404-Keeps, attach_hashtag_ids-Keeps)

  pub check_delete_lock-Keeps : (u : ℕ) (row : Transaction) → Keeps P (check_delete_lock u row)
  unfolding check_delete_lock fetch_recon_status
  check_delete_lock-Keeps u row = search keeps_rules depth 8

  pub check_prerequisites-Keeps : (u : ℕ) (row : Transaction) → Keeps P (check_prerequisites u row)
  unfolding check_prerequisites active_account_row active_category_row
  check_prerequisites-Keeps u row = search keeps_rules depth 8

  pub resolve_reconciliation-Keeps :
      (u : ℕ) (row : Transaction) → Keeps P (resolve_reconciliation u row)
  unfolding resolve_reconciliation fetch_recon_status
  resolve_reconciliation-Keeps u row = search keeps_rules depth 8

  pub attach_all-Keeps : (rows : List Transaction) → Keeps P (attach_all rows)
  unfolding attach_all
  attach_all-Keeps [] = search keeps_rules
  attach_all-Keeps (row ∷ rows) =
      Keeps-bind _ _ (attach_hashtag_ids-Keeps row ledger)
        λ _. Keeps-bind _ _ (attach_all-Keeps rows) (λ _. Keeps-pure _)

module _ {u : ℕ} {P : Db → Type 0} (survives : SurvivesSideWrites u P) where
  pub write_activity_log-Keeps :
      (noun : Resource) (i : ℕ) (action : ActivityAction) (b a : Option Snapshot)
      → Keeps P (write_activity_log u noun i action b a)
  unfolding write_activity_log
  write_activity_log-Keeps noun i action b a =
      Keeps-modify _ (λ db h. survives.log _ db (refl, refl) h)

  pub sync-Keeps :
      (i : ℕ) (ids : List ℕ) (s : TransactionSource) → Keeps P (sync_hashtags u i ids s)
  sync-Keeps = sync_hashtags-Keeps survives.links u

  pub close-Keeps :
      (i : ℕ) (s : TransactionSource) (keep : List ℕ) → Keeps P (cascade_delete u i s keep)
  close-Keeps = cascade_delete-Keeps survives.links u

  pub reopen-Keeps :
      (i : ℕ) (s : TransactionSource) (marker : ℕ) → Keeps P (cascade_restore u i s marker)
  reopen-Keeps = cascade_restore-Keeps survives.links u

  pub sync_if_any-Keeps : (i : ℕ) (ids : List ℕ) → Keeps P (sync_if_any u i ids)
  sync_if_any-Keeps i [] = search keeps_rules
  sync_if_any-Keeps i (h ∷ ids) = sync_hashtags-Keeps survives.links u i (h ∷ ids) ledger

  pub log_all-Keeps : (rows : List TransactionResponse) → Keeps P (log_all u rows)
  unfolding log_all
  log_all-Keeps [] = search keeps_rules
  log_all-Keeps (row ∷ rows) =
      Keeps-seq _ _ (write_activity_log-Keeps _ _ _ _ _) (log_all-Keeps rows)

  module _
      (inserts : (n : NewTransaction) (db : Db)
        → exists (λ t. t.id == n.id) db.transactions ≡ false
        → P db
        → P (record db { transactions = new_row db.now u n ∷ db.transactions })) where
    -- The write is made where the id is free.
    pub insert_transaction_row-Keeps : (n : NewTransaction) → Keeps P (insert_transaction_row u n)
    unfolding insert_transaction_row ◌>>=◌
    insert_transaction_row-Keeps n = record {
      at = λ db h. elim (Bool-cases (exists (λ t. t.id == n.id) db.transactions)) [
        | inl taken ↦ rw taken h
        | inr fresh ↦ rw fresh (inserts n db fresh h)
      ];
    }

    pub create_transaction-Keeps :
        (body : TransactionCreateRequest) (allowed : Bool)
        → Keeps P (create_transaction u body allowed)
    unfolding create_transaction db_now
    create_transaction-Keeps body allowed =
        search
          (
            keeps_rules, validate_active_account-Keeps, validate_active_category-Keeps,
            insert_transaction_row-Keeps, sync_if_any-Keeps, attach_hashtag_ids-Keeps,
            write_activity_log-Keeps,
          )
          depth 20

    pub insert_items-Keeps :
        (items : List TransactionCreateRequest) → Keeps P (insert_items u items)
    unfolding insert_items
    insert_items-Keeps [] = search keeps_rules
    insert_items-Keeps (item ∷ rest) = Keeps-bind _ _ (insert_transaction_row-Keeps _) λ row.
        Keeps-seq _ _ (sync_if_any-Keeps _ _)
          (Keeps-bind _ _ (insert_items-Keeps rest) (λ _. Keeps-pure _))

    pub create_batch-Keeps :
        (items : List TransactionCreateRequest) → Keeps P (create_batch u items)
    unfolding create_batch
    create_batch-Keeps [] = search keeps_rules
    create_batch-Keeps (item ∷ rest) =
        search (keeps_rules, insert_items-Keeps, attach_all-Keeps, log_all-Keeps) depth 12

  pub apply_update-Keeps :
      (i : ℕ) (f : TransactionFields) (ids : Option (List ℕ)) (recon : Option (Option ℕ))
      (before : TransactionResponse)
      → Keeps P (dynamic_update Tables.transactions (set_columns f recon) i u)
      → Keeps P (apply_update u i f ids recon before)
  unfolding apply_update
  apply_update-Keeps i f ids recon before k =
      search (keeps_rules, sync-Keeps, attach_hashtag_ids-Keeps, write_activity_log-Keeps) depth 12

  pub close_transaction-Keeps :
      (i : ℕ) (row : Transaction)
      → Keeps P (soft_delete Tables.transactions i u)
      → Keeps P (close_transaction u i row)
  unfolding close_transaction
  close_transaction-Keeps i row k =
      search (keeps_rules, close-Keeps, attach_hashtag_ids-Keeps, write_activity_log-Keeps) depth 12

  pub reopen_transaction-Keeps :
      (i : ℕ) (row : Transaction) (unlink : Bool)
      → Keeps P
          (update_returning Tables.transactions (is_owned Tables.transactions i u) (reopen unlink))
      → Keeps P (reopen_transaction u i row unlink)
  unfolding reopen_transaction
  reopen_transaction-Keeps i row unlink k =
      search (keeps_rules, reopen-Keeps, attach_hashtag_ids-Keeps, write_activity_log-Keeps) depth
        12
