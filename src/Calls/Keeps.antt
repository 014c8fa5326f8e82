-- ===== src/Calls/Keeps.antt =====
-- Every write that a call can make, and the induction over calls that they give.
use expense_world_engine.Base.{ℕ, ◌≡◌, ◌==◌, exists, Bool, true, false, Option, List, ◌∷◌}
use expense_world_engine.Schema.{
  Db, Text, TransactionResponse, ReconciliationStatus, draft, completed, Transaction,
}
use expense_world_engine.Schema.Tables
use expense_world_engine.Exec.{modify}
use expense_world_engine.Exec.Keeps.{Keeps, Keeps-modify, Keeps-seq, Keeps-pure, keeps_rules}
use expense_world_engine.Query.{
  dynamic_update, update_returning, update_rows, is_owned, soft_delete, restore,
}
use expense_world_engine.Query.Owned.{fetch_owned_row_or_404-Keeps}
use expense_world_engine.Ledger.Requests.{TransactionFields}
use expense_world_engine.Ledger.Rows.{NewTransaction, new_row}
use expense_world_engine.Ledger.Edit.{set_columns, update_transaction, update_nonempty}
use expense_world_engine.Ledger.Remove.{reopen, delete_transaction, restore_transaction}
use expense_world_engine.Ledger.Keeps.{
  SurvivesSideWrites, attach_hashtag_ids-Keeps, check_field_lock-Keeps, check_assignment-Keeps,
  check_columns-Keeps, fetch_unchanged-Keeps, check_delete_lock-Keeps, check_prerequisites-Keeps,
  resolve_reconciliation-Keeps, create_transaction-Keeps, create_batch-Keeps, apply_update-Keeps,
  close_transaction-Keeps, reopen_transaction-Keeps,
}
use expense_world_engine.Inbox.{InboxCreateRequest, InboxUpdateRequest, new_item, set_item}
use expense_world_engine.Inbox.Promote.{retired}
use expense_world_engine.Inbox.Keeps.{
  create_inbox_item-Keeps, update_inbox_item-Keeps, delete_inbox_item-Keeps,
  promote_inbox_item-Keeps,
}
use expense_world_engine.Reconciliations.{
  ReconciliationCreate, ReconciliationFields, new_reconciliation, set_fields, with_status,
  is_assigned, unassigned, complete_reconciliation, revert_reconciliation, transition_status,
}
use expense_world_engine.Reconciliations.Keeps.{
  create_reconciliation-Keeps, apply_fields-Keeps, update_reconciliation-Keeps, flip_status-Keeps,
  transition_status-Keeps, delete_reconciliation-Keeps, restore_reconciliation-Keeps,
}
use expense_world_engine.Calls.{Call, serve}

-- One field for each write of the service functions.
pub record SurvivesCalls (u : ℕ) (P : Db → Type 0) : Type 0 where
  pub side : SurvivesSideWrites u P
  pub insert_transaction :
      (n : NewTransaction) (db : Db)
      → exists (λ t. t.id == n.id) db.transactions ≡ false
      → P db
      → P (record db { transactions = new_row db.now u n ∷ db.transactions })
  pub insert_item :
      (body : InboxCreateRequest) (db : Db)
      → P db
      → P (record db { inbox = new_item db.now u body ∷ db.inbox })
  pub insert_reconciliation :
      (body : ReconciliationCreate) (t : Text) (db : Db)
      → exists (λ r. r.id == body.id) db.reconciliations ≡ false
      → P db
      → P (record db { reconciliations = new_reconciliation db.now u body t ∷ db.reconciliations })
  pub edit_transaction :
      (i : ℕ) (f : TransactionFields) (recon : Option (Option ℕ))
      → Keeps P (dynamic_update Tables.transactions (set_columns f recon) i u)
  pub close_transaction : (i : ℕ) → Keeps P (soft_delete Tables.transactions i u)
  pub reopen_transaction :
      (i : ℕ) (unlink : Bool)
      → Keeps P
          (update_returning Tables.transactions (is_owned Tables.transactions i u) (reopen unlink))
  pub edit_item :
      (i : ℕ) (f : InboxUpdateRequest) → Keeps P (dynamic_update Tables.inbox (set_item f) i u)
  pub close_item : (i : ℕ) → Keeps P (soft_delete Tables.inbox i u)
  pub retire_item :
      (i : ℕ) → Keeps P (update_returning Tables.inbox (is_owned Tables.inbox i u) retired)
  pub edit_reconciliation :
      (i : ℕ) (f : ReconciliationFields)
      → Keeps P (dynamic_update Tables.reconciliations (set_fields f) i u)
  pub flip :
      (i : ℕ) (target : ReconciliationStatus)
      → Keeps P (
          modify (
            update_rows Tables.reconciliations
              (is_owned Tables.reconciliations i u)
              (with_status target)))
  pub touch_assigned :
      (i : ℕ)
      → Keeps P
          (modify (update_rows Tables.transactions (is_assigned i u) Tables.transactions.touched))
  pub unassign :
      (i : ℕ) → Keeps P (modify (update_rows Tables.transactions (is_assigned i u) unassigned))
  pub close_reconciliation : (i : ℕ) → Keeps P (soft_delete Tables.reconciliations i u)
  pub reopen_reconciliation : (i : ℕ) → Keeps P (restore Tables.reconciliations i u)

module _ {u : ℕ} {P : Db → Type 0} (survives : SurvivesCalls u P) where
  update-Keeps :
      (i : ℕ) (f : TransactionFields) (ids : Option (List ℕ)) (recon : Option (Option ℕ))
      → Keeps P (update_transaction u i f ids recon)
  unfolding update_transaction update_nonempty
  update-Keeps i f ids recon =
      let edit = λ (before : TransactionResponse).
        apply_update-Keeps survives.side i f ids recon before
          (survives.edit_transaction i f recon) in
      search
        (
          keeps_rules, fetch_unchanged-Keeps, fetch_owned_row_or_404-Keeps,
          attach_hashtag_ids-Keeps, check_field_lock-Keeps, check_assignment-Keeps,
          check_columns-Keeps, edit,
        )
        depth 12

  delete-Keeps : (i : ℕ) → Keeps P (delete_transaction u i)
  unfolding delete_transaction
  delete-Keeps i =
      let close = λ (row : Transaction).
        close_transaction-Keeps survives.side i row (survives.close_transaction i) in
      search (keeps_rules, fetch_owned_row_or_404-Keeps, check_delete_lock-Keeps, close) depth 8

  restore-Keeps : (i : ℕ) → Keeps P (restore_transaction u i)
  unfolding restore_transaction
  restore-Keeps i =
      let reopen = λ (row : Transaction) (unlink : Bool).
        reopen_transaction-Keeps survives.side i row unlink
          (survives.reopen_transaction i unlink) in
      search
        (
          keeps_rules, fetch_owned_row_or_404-Keeps, check_prerequisites-Keeps,
          resolve_reconciliation-Keeps, reopen,
        )
        depth 8

  transition-Keeps :
      (i : ℕ) (target : ReconciliationStatus) (require : Bool)
      → Keeps P (transition_status u i target require)
  transition-Keeps i target require =
      transition_status-Keeps survives.side i target require λ before.
        flip_status-Keeps survives.side i target before (survives.flip i target)
          (survives.touch_assigned i)

  -- What survives every write survives every call.
  pub serve-Keeps : (call : Call) → Keeps P (serve u call)
  unfolding serve complete_reconciliation revert_reconciliation
  serve-Keeps (Call.create_transaction body) =
      Keeps-seq _ _ (create_transaction-Keeps survives.side survives.insert_transaction body false)
        (Keeps-pure tt)
  serve-Keeps (Call.create_batch items) =
      Keeps-seq _ _ (create_batch-Keeps survives.side survives.insert_transaction items)
        (Keeps-pure tt)
  serve-Keeps (Call.update_transaction i f ids recon) =
      Keeps-seq _ _ (update-Keeps i f ids recon) (Keeps-pure tt)
  serve-Keeps (Call.delete_transaction i) = Keeps-seq _ _ (delete-Keeps i) (Keeps-pure tt)
  serve-Keeps (Call.restore_transaction i) = Keeps-seq _ _ (restore-Keeps i) (Keeps-pure tt)
  serve-Keeps (Call.create_inbox_item body) =
      Keeps-seq _ _
        (create_inbox_item-Keeps survives.side body (Keeps-modify _ (survives.insert_item body)))
        (Keeps-pure tt)
  serve-Keeps (Call.update_inbox_item i f) =
      Keeps-seq _ _ (update_inbox_item-Keeps survives.side i f (survives.edit_item i f))
        (Keeps-pure tt)
  serve-Keeps (Call.delete_inbox_item i) =
      Keeps-seq _ _ (delete_inbox_item-Keeps survives.side i (survives.close_item i))
        (Keeps-pure tt)
  serve-Keeps (Call.promote_inbox_item i target) =
      Keeps-seq _ _
        (promote_inbox_item-Keeps survives.side survives.insert_transaction i target
          (survives.retire_item i))
        (Keeps-pure tt)
  serve-Keeps (Call.create_reconciliation body) =
      Keeps-seq _ _
        (create_reconciliation-Keeps survives.side body (survives.insert_reconciliation body))
        (Keeps-pure tt)
  serve-Keeps (Call.update_reconciliation i f) =
      Keeps-seq _ _
        (update_reconciliation-Keeps survives.side i f (λ before.
          apply_fields-Keeps survives.side i f before (survives.edit_reconciliation i f)))
        (Keeps-pure tt)
  serve-Keeps (Call.complete_reconciliation i) =
      Keeps-seq _ _ (transition-Keeps i completed true) (Keeps-pure tt)
  serve-Keeps (Call.revert_reconciliation i) =
      Keeps-seq _ _ (transition-Keeps i draft false) (Keeps-pure tt)
  serve-Keeps (Call.delete_reconciliation i) =
      Keeps-seq _ _
        (delete_reconciliation-Keeps survives.side i (survives.unassign i)
          (survives.close_reconciliation i))
        (Keeps-pure tt)
  serve-Keeps (Call.restore_reconciliation i) =
      Keeps-seq _ _
        (restore_reconciliation-Keeps survives.side i (survives.reopen_reconciliation i))
        (Keeps-pure tt)
