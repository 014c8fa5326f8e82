-- ===== src/Reconciliations/Keeps.antt =====
-- What a reconciliation's service functions write, for any invariant that survives those writes.
use expense_world_engine.Base.{exists, ◌==◌, Bool-cases, inl, inr, ℕ, ◌≡◌, Bool, false, Option, ◌∷◌}
use expense_world_engine.Schema.{
  Db, Text, Reconciliation, ReconciliationStatus, ReconciliationResponse, ActivityAction, Resource,
  Snapshot,
}
use expense_world_engine.Schema.Tables
use expense_world_engine.Exec.{Exec, modify, ◌>>=◌}
use expense_world_engine.Exec.Keeps.{Keeps, keeps_rules}
use expense_world_engine.Query.{
  dynamic_update, update_rows, is_owned, write_activity_log, soft_delete, restore,
}
use expense_world_engine.Ledger.Keeps.{
  SurvivesSideWrites, write_activity_log-Keeps, validate_active_account-Keeps, normalize_name-Keeps,
}
use expense_world_engine.Reconciliations.{
  is_assigned, fetch_reconciliation, fetch_or_404, ReconciliationCreate, ReconciliationFields,
  new_reconciliation, insert_reconciliation_row, create_reconciliation, set_fields, apply_fields,
  update_fields, update_reconciliation, with_status, flip_status, transition_status, unassigned,
  mutate_refetched, delete_reconciliation, restore_reconciliation,
}

pub fetch_or_404-Keeps : {P : Db → Type 0} (u i : ℕ) (gone : Bool) → Keeps P (fetch_or_404 u i gone)
unfolding fetch_or_404 fetch_reconciliation
fetch_or_404-Keeps u i gone = search keeps_rules

module _ {u : ℕ} {P : Db → Type 0} (survives : SurvivesSideWrites u P) where
  log-Keeps :
      (noun : Resource) (i : ℕ) (action : ActivityAction) (b a : Option Snapshot)
      → Keeps P (write_activity_log u noun i action b a)
  log-Keeps = write_activity_log-Keeps survives

  pub insert_reconciliation_row-Keeps :
      (body : ReconciliationCreate) (t : Text)
      → ((db : Db)
          → exists (λ r. r.id == body.id) db.reconciliations ≡ false
          → P db
          → P (record db {
            reconciliations = new_reconciliation db.now u body t ∷ db.reconciliations;
          }))
      → Keeps P (insert_reconciliation_row u body t)
  unfolding insert_reconciliation_row ◌>>=◌
  insert_reconciliation_row-Keeps body t inserts = record {
    at = λ db h. elim (Bool-cases (exists (λ r. r.id == body.id) db.reconciliations)) [
      | inl taken ↦ rw taken h
      | inr fresh ↦ rw fresh (inserts db fresh h)
    ];
  }

  pub create_reconciliation-Keeps :
      (body : ReconciliationCreate)
      → ((t : Text) (db : Db)
          → exists (λ r. r.id == body.id) db.reconciliations ≡ false
          → P db
          → P (record db {
            reconciliations = new_reconciliation db.now u body t ∷ db.reconciliations;
          }))
      → Keeps P (create_reconciliation u body)
  unfolding create_reconciliation
  create_reconciliation-Keeps body inserts =
      let insert = λ (t : Text). insert_reconciliation_row-Keeps body t (inserts t) in
      search
        (
          keeps_rules, validate_active_account-Keeps, normalize_name-Keeps, fetch_or_404-Keeps,
          log-Keeps, insert,
        )
        depth 15

  pub apply_fields-Keeps :
      (i : ℕ) (f : ReconciliationFields) (before : ReconciliationResponse)
      → Keeps P (dynamic_update Tables.reconciliations (set_fields f) i u)
      → Keeps P (apply_fields u i f before)
  unfolding apply_fields
  apply_fields-Keeps i f before k = search (keeps_rules, fetch_or_404-Keeps, log-Keeps) depth 12

  pub update_reconciliation-Keeps :
      (i : ℕ) (f : ReconciliationFields)
      → ((before : ReconciliationResponse) → Keeps P (apply_fields u i f before))
      → Keeps P (update_reconciliation u i f)
  unfolding update_reconciliation update_fields
  update_reconciliation-Keeps i f k =
      search (keeps_rules, fetch_or_404-Keeps, normalize_name-Keeps) depth 12

  pub flip_status-Keeps :
      (i : ℕ) (target : ReconciliationStatus) (before : ReconciliationResponse)
      → Keeps P (
          modify (
            update_rows Tables.reconciliations
              (is_owned Tables.reconciliations i u)
              (with_status target)))
      → Keeps P
          (modify (update_rows Tables.transactions (is_assigned i u) Tables.transactions.touched))
      → Keeps P (flip_status u i target before)
  unfolding flip_status
  flip_status-Keeps i target before k l =
      search (keeps_rules, fetch_or_404-Keeps, log-Keeps) depth 12

  pub transition_status-Keeps :
      (i : ℕ) (target : ReconciliationStatus) (require : Bool)
      → ((before : ReconciliationResponse) → Keeps P (flip_status u i target before))
      → Keeps P (transition_status u i target require)
  unfolding transition_status
  transition_status-Keeps i target require k = search (keeps_rules, fetch_or_404-Keeps) depth 12

  pub mutate_refetched-Keeps :
      (i : ℕ) (before : ReconciliationResponse) (mutate : Exec (Option Reconciliation))
      (action : ActivityAction) (gone : Bool)
      → Keeps P mutate
      → Keeps P (mutate_refetched u i before mutate action gone)
  unfolding mutate_refetched
  mutate_refetched-Keeps i before mutate action gone k =
      search (keeps_rules, fetch_or_404-Keeps, log-Keeps) depth 12

  pub delete_reconciliation-Keeps :
      (i : ℕ)
      → Keeps P (modify (update_rows Tables.transactions (is_assigned i u) unassigned))
      → Keeps P (soft_delete Tables.reconciliations i u)
      → Keeps P (delete_reconciliation u i)
  unfolding delete_reconciliation
  delete_reconciliation-Keeps i k l =
      search (keeps_rules, fetch_or_404-Keeps, mutate_refetched-Keeps) depth 12

  pub restore_reconciliation-Keeps :
      (i : ℕ) → Keeps P (restore Tables.reconciliations i u) → Keeps P (restore_reconciliation u i)
  unfolding restore_reconciliation
  restore_reconciliation-Keeps i k =
      search (keeps_rules, fetch_or_404-Keeps, mutate_refetched-Keeps) depth 12
