-- ===== src/Calls/Audit/Drafts.antt =====
-- The service functions of app/helpers/inbox.py and reconciliations.py, each with the log entry it
-- ends in.
use expense_world_engine.Base.{ℕ, Bool, Option, ◌∷◌}
use expense_world_engine.Schema.{
  Db, Text, InboxResponse, Reconciliation, ReconciliationResponse, ReconciliationStatus,
  ActivityAction,
}
use expense_world_engine.Exec.{Exec, modify}
use expense_world_engine.Exec.Keeps.{Keeps, Keeps-modify}
use expense_world_engine.Ledger.Keeps.{
  sync-Keeps, close-Keeps, validate_active_account-Keeps, normalize_name-Keeps,
}
use expense_world_engine.Inbox.{
  InboxCreateRequest, InboxUpdateRequest, new_item, create_inbox_item, update_sent,
  apply_item_update, delete_inbox_item,
}
use expense_world_engine.Inbox.Promote.{retire_draft, promote_inbox_item}
use expense_world_engine.Inbox.Keeps.{reads, sync_inbox-Keeps, insert_promoted-Keeps}
use expense_world_engine.Reconciliations.{
  ReconciliationCreate, ReconciliationFields, create_reconciliation, apply_fields, update_fields,
  flip_status, mutate_refetched, delete_reconciliation, restore_reconciliation,
}
use expense_world_engine.Reconciliations.Keeps.{fetch_or_404-Keeps, insert_reconciliation_row-Keeps}
use expense_world_engine.Calls.Keeps.{SurvivesCalls}
use expense_world_engine.Calls.Audit.{Appends, Appends-SurvivesCalls}
use expense_world_engine.Calls.Audit.Logs.{Logs, logs_rules}

module _ (u : ℕ) (a : Db) where
  survives : SurvivesCalls u (Appends u a)
  survives = Appends-SurvivesCalls u a

  insert_item-Appends :
      (body : InboxCreateRequest)
      → Keeps (Appends u a) (modify (λ db. record db { inbox = new_item db.now u body ∷ db.inbox }))
  insert_item-Appends body = Keeps-modify _ (survives.insert_item body)

  pub create_inbox_item-Logs : (body : InboxCreateRequest) → Logs u a (create_inbox_item u body)
  unfolding create_inbox_item
  create_inbox_item-Logs body =
      let tags = sync_inbox-Keeps survives.side in
      search (reads, logs_rules, insert_item-Appends, tags) depth 20

  pub update_sent-Logs : (i : ℕ) (f : InboxUpdateRequest) → Logs u a (update_sent u i f)
  unfolding update_sent apply_item_update
  update_sent-Logs i f =
      let edit = survives.edit_item in
      let sync = sync-Keeps survives.side in search (reads, logs_rules, edit, sync) depth 20

  pub delete_inbox_item-Logs : (i : ℕ) → Logs u a (delete_inbox_item u i)
  unfolding delete_inbox_item
  delete_inbox_item-Logs i =
      let close = survives.close_item in
      let cascade = close-Keeps survives.side in search (reads, logs_rules, close, cascade) depth 20

  retire_draft-Logs : (i : ℕ) (before : InboxResponse) → Logs u a (retire_draft u i before)
  unfolding retire_draft
  retire_draft-Logs i before =
      let retire = survives.retire_item in
      let cascade = close-Keeps survives.side in
      search (reads, logs_rules, retire, cascade) depth 20

  pub promote_inbox_item-Logs : (i target : ℕ) → Logs u a (promote_inbox_item u i target)
  unfolding promote_inbox_item
  promote_inbox_item-Logs i target =
      let insert = insert_promoted-Keeps survives.side survives.insert_transaction in
      search (reads, logs_rules, insert, retire_draft-Logs) depth 20

  pub create_reconciliation-Logs :
      (body : ReconciliationCreate) → Logs u a (create_reconciliation u body)
  unfolding create_reconciliation
  create_reconciliation-Logs body =
      let insert = λ (t : Text).
        insert_reconciliation_row-Keeps survives.side body t
          (survives.insert_reconciliation body t) in
      search
        (
          logs_rules, validate_active_account-Keeps, normalize_name-Keeps, fetch_or_404-Keeps,
          insert,
        )
        depth 15

  pub update_fields-Logs : (i : ℕ) (f : ReconciliationFields) → Logs u a (update_fields u i f)
  unfolding update_fields apply_fields
  update_fields-Logs i f =
      let edit = survives.edit_reconciliation in
      search (logs_rules, fetch_or_404-Keeps, normalize_name-Keeps, edit) depth 20

  pub flip_status-Logs :
      (i : ℕ) (target : ReconciliationStatus) (before : ReconciliationResponse)
      → Logs u a (flip_status u i target before)
  unfolding flip_status
  flip_status-Logs i target before =
      let flip = survives.flip in
      let touch = survives.touch_assigned in
      search (logs_rules, fetch_or_404-Keeps, flip, touch) depth 12

  mutate_refetched-Logs :
      (i : ℕ) (before : ReconciliationResponse) (mutate : Exec (Option Reconciliation))
      (action : ActivityAction) (gone : Bool)
      → Keeps (Appends u a) mutate
      → Logs u a (mutate_refetched u i before mutate action gone)
  unfolding mutate_refetched
  mutate_refetched-Logs i before mutate action gone k =
      search (logs_rules, fetch_or_404-Keeps) depth 12

  pub delete_reconciliation-Logs : (i : ℕ) → Logs u a (delete_reconciliation u i)
  unfolding delete_reconciliation
  delete_reconciliation-Logs i =
      let unassign = survives.unassign in
      let close = survives.close_reconciliation in
      search (logs_rules, fetch_or_404-Keeps, mutate_refetched-Logs, unassign, close) depth 12

  pub restore_reconciliation-Logs : (i : ℕ) → Logs u a (restore_reconciliation u i)
  unfolding restore_reconciliation
  restore_reconciliation-Logs i =
      let reopen = survives.reopen_reconciliation in
      search (logs_rules, fetch_or_404-Keeps, mutate_refetched-Logs, reopen) depth 12
