-- ===== src/Calls/Sealed.antt =====
-- The ledger's part of the calls on a completed reconciliation: update, delete and restore of
-- app/helpers/transactions.py.
pub mod Transitions
pub mod Fields
pub mod Serve
pub mod Flips
pub mod Completes
use expense_world_engine.Base.{
  ℕ, ◌≡◌, ◌≢◌, refl, ◌==◌, ltb, Bool, true, false, Bool-cases, inl, inr, arith, Option, none, some,
  List, [], ◌∷◌, find, is_at, is_none, is_some, or_else, exists_false, find_holds,
}
use expense_world_engine.Base.Int.{ℤ}
use expense_world_engine.Base.Rows.{Alike}
use expense_world_engine.Schema.{
  Db, Text, Transaction, TransactionResponse, TransactionSource, ActivityAction, Snapshot, Resource,
  ledger, Reconciliation, ReconciliationStatus, ReconciliationResponse, draft, completed,
}
use expense_world_engine.Schema.Tables
use expense_world_engine.Exec.{Exec, modify, ◌>>=◌}
use expense_world_engine.Exec.Keeps.{
  Keeps, Keeps-modify, Keeps-seq, Keeps-pure, Keeps-if, Keeps-bind, keeps_rules,
}
use expense_world_engine.Exec.Outcome.{
  Triple, Triple-bind, Triple-read, Triple-Keeps, Keeps-Triple, Triple-or_raise, Triple-weaken,
  Triple-pre,
}
use expense_world_engine.Query.{
  dynamic_update, update_returning, update_rows, is_owned, is_resolved, soft_delete, restore,
  fetch_owned_row_or_404, write_activity_log,
}
use expense_world_engine.Links.{cascade_delete, cascade_restore, sync_hashtags}
use expense_world_engine.Query.Owned.{fetch_owned_row_or_404-Keeps, update_returning-Keeps}
use expense_world_engine.Query.Found.{fetch_owned_row_or_404-Triple, update_returning-Triple}
use expense_world_engine.Ledger.Requests.{TransactionFields}
use expense_world_engine.Ledger.Rows.{
  NewTransaction, new_row, attach_hashtag_ids, is_reconciliation, is_completed,
}
use expense_world_engine.Ledger.Edit.{
  set_columns, set_amount, update_transaction, update_nonempty, apply_update, attempted,
}
use expense_world_engine.Ledger.Remove.{
  reopen, delete_transaction, restore_transaction, close_transaction, reopen_transaction,
}
use expense_world_engine.Ledger.Keeps.{
  SurvivesSideWrites, attach_hashtag_ids-Keeps, check_columns-Keeps, fetch_unchanged-Keeps,
  check_prerequisites-Keeps, create_transaction-Keeps, create_batch-Keeps, sync-Keeps, close-Keeps,
  reopen-Keeps, write_activity_log-Keeps,
}
use expense_world_engine.Inbox.Keeps.{
  create_inbox_item-Keeps, update_inbox_item-Keeps, delete_inbox_item-Keeps,
  promote_inbox_item-Keeps,
}
use expense_world_engine.Reconciliations.{is_assigned}
use expense_world_engine.Reconciliations.Sealed.{
  LockedPart, locked_part, IsSealed, IsSealedRow, update_rows-IsSealed, update_row-IsSealed,
  update_reconciliations-IsSealed,
}
use expense_world_engine.Reconciliations.Sealed.Guards.{
  check_field_lock-Triple, check_delete_lock-Triple, check_assignment-Triple,
  resolve_reconciliation-Triple, reopen-Alike, close-Alike, set_columns-Alike,
}

module _ (rid u : ℕ) (beginning ending : ℤ) (rows : List LockedPart) where
  abbrev Seal : Db → Type 0
  Seal = IsSealed rid u beginning ending rows

  pub Seal-SurvivesSideWrites : SurvivesSideWrites u Seal
  Seal-SurvivesSideWrites = record {
    links = λ js db h. record {
      unique = h.unique;
      present = h.present;
      sealed = h.sealed;
      assigned = h.assigned;
    };
    log = λ e db own h. record {
      unique = h.unique;
      present = h.present;
      sealed = h.sealed;
      assigned = h.assigned;
    };
  }

  -- The row is the one that the service function fetched.
  abbrev Found : ℕ → Bool → Transaction → Db → Type 0
  Found i gone row db =
      Seal db × (find (is_resolved Tables.transactions i u gone) db.transactions ≡ some row)

  close_tags :
      (i : ℕ) (s : TransactionSource) (keep : List ℕ) → Keeps Seal (cascade_delete u i s keep)
  close_tags = close-Keeps Seal-SurvivesSideWrites

  reopen_tags :
      (i : ℕ) (s : TransactionSource) (marker : ℕ) → Keeps Seal (cascade_restore u i s marker)
  reopen_tags = reopen-Keeps Seal-SurvivesSideWrites

  sync_tags : (i : ℕ) (ids : List ℕ) (s : TransactionSource) → Keeps Seal (sync_hashtags u i ids s)
  sync_tags = sync-Keeps Seal-SurvivesSideWrites

  write_log :
      (noun : Resource) (i : ℕ) (action : ActivityAction) (b a : Option Snapshot)
      → Keeps Seal (write_activity_log u noun i action b a)
  write_log = write_activity_log-Keeps Seal-SurvivesSideWrites

  -- The UPDATE and its RETURNING, then the rest.
  module _ (i : ℕ) where
    close-Triple :
        (row : Transaction)
        → Triple
            (λ db. Found i false row db × (is_at row.reconciliation_id rid ≡ false))
            (close_transaction u i row)
            (λ _. Seal)
            Seal
    unfolding close_transaction soft_delete
    close-Triple row =
        Triple-bind (Triple-read (λ db h. h.0.0) (attach_hashtag_ids-Keeps row ledger)) λ _.
          Triple-bind
            (update_returning-Triple Tables.transactions _ _ λ db h.
              update_row-IsSealed rid u beginning ending i false _ _ db row
                (λ t e. ground (arith, e)) (λ t. refl) h.0.1 (close-Alike rid u db.now row h.1)
                h.0.0)
            λ o.
              Triple-Keeps
                (search (keeps_rules, close_tags, attach_hashtag_ids-Keeps, write_log) depth 12)

    pub delete-IsSealed : Keeps Seal (delete_transaction u i)
    unfolding delete_transaction
    delete-IsSealed = Keeps-Triple (
        Triple-bind
          (fetch_owned_row_or_404-Triple Tables.transactions (λ db h. h) i u Resource.transaction
            false)
          λ row. Triple-bind (check_delete_lock-Triple (λ db h. h.0) row) λ _. close-Triple row)

    reopen-Triple :
        (row : Transaction) (unlink : Bool)
        → Triple
            (λ db. Found i true row db × (is_at row.reconciliation_id rid ≡ true → unlink ≡ true))
            (reopen_transaction u i row unlink)
            (λ _. Seal)
            Seal
    unfolding reopen_transaction
    reopen-Triple row unlink =
        Triple-bind (Triple-read (λ db h. h.0.0) (attach_hashtag_ids-Keeps row ledger)) λ _.
          Triple-bind
            (update_returning-Triple Tables.transactions _ _ λ db h.
              update_row-IsSealed rid u beginning ending i true _ _ db row
                (λ t e. ground (arith, e)) (λ t. refl) h.0.1
                (reopen-Alike rid u db.now row unlink
                  (gone row (
                    find_holds (is_resolved Tables.transactions i u true) db.transactions row
                      h.0.1))
                  h.1)
                h.0.0)
            λ o.
              Triple-Keeps
                (search (keeps_rules, reopen_tags, attach_hashtag_ids-Keeps, write_log) depth 12)
      where
        gone :
            (t : Transaction)
            → is_resolved Tables.transactions i u true t ≡ true
            → is_some t.deleted_at ≡ true
        gone t e = ground (arith, e)

    pub restore-IsSealed : Keeps Seal (restore_transaction u i)
    unfolding restore_transaction
    restore-IsSealed = Keeps-Triple (
        Triple-bind
          (fetch_owned_row_or_404-Triple Tables.transactions (λ db h. h) i u Resource.transaction
            true)
          λ row. Triple-bind (Triple-read (λ db h. h.0) (check_prerequisites-Keeps u row)) λ _.
            Triple-bind (resolve_reconciliation-Triple (λ db h. h.0) row)
              λ w. Triple-bind (reopen-Triple row (is_some w)) λ after. Triple-Keeps (Keeps-pure _))

    apply-Triple :
        (row : Transaction) (f : TransactionFields) (ids : Option (List ℕ))
        (recon : Option (Option ℕ)) (before : TransactionResponse)
        → Triple
            (λ db.
              (Found i false row db
                × (is_at row.reconciliation_id rid ≡ true → attempted f (is_some recon) ≡ []))
              × (is_at (or_else recon none) rid ≡ false))
            (apply_update u i f ids recon before)
            (λ _. Seal)
            Seal
    unfolding apply_update dynamic_update
    apply-Triple row f ids recon before =
        Triple-bind
          (update_returning-Triple Tables.transactions _ _ λ db h.
            update_row-IsSealed rid u beginning ending i false _ _ db row (λ t e. ground (arith, e))
              (λ t. keep_id f.amount_cents _) h.0.0.1
              (set_columns-Alike rid u db.now row f recon h.0.1 h.1) h.0.0.0)
          λ o.
            Triple-Keeps
              (search (keeps_rules, sync_tags, attach_hashtag_ids-Keeps, write_log) depth 12)
      where
        keep_id : (o : Option ℤ) (r : Transaction) → (set_amount o r).id ≡ r.id
        keep_id none r = refl
        keep_id (some v) r = refl

    pub update-IsSealed :
        (f : TransactionFields) (ids : Option (List ℕ)) (recon : Option (Option ℕ))
        → Keeps Seal (update_transaction u i f ids recon)
    unfolding update_transaction update_nonempty
    update-IsSealed f ids recon = Keeps-if _ _ _ (fetch_unchanged-Keeps u i) (
        Keeps-Triple (
          Triple-bind
            (fetch_owned_row_or_404-Triple Tables.transactions (λ db h. h) i u Resource.transaction
              false)
            λ row.
              Triple-bind (Triple-read (λ db h. h.0) (attach_hashtag_ids-Keeps row ledger))
                λ before.
                  Triple-bind (check_field_lock-Triple (λ db h. h.0) row f (is_some recon)) λ _.
                    Triple-bind (check_assignment-Triple (λ db h. h.0.0) row f recon) λ _.
                      Triple-bind (Triple-read (λ db h. h.0.0.0) (check_columns-Keeps u f))
                        λ _. apply-Triple row f ids recon before))
