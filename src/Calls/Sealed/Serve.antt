-- ===== src/Calls/Sealed/Serve.antt =====
-- The calls of app/routers, and histories of them, on a completed reconciliation.
use expense_world_engine.Base.{
  ℕ, ◌≡◌, ◌≢◌, refl, sym, ap, ◌∙◌, ◌==◌, Bool, true, false, arith, some, List, [], ◌∷◌, find,
  select, map, find_holds, All,
}
use expense_world_engine.Base.Int.{ℤ, ◌-ℤ◌}
use expense_world_engine.Base.Rows.{view, All-find}
use expense_world_engine.Base.Sums.{sum_by}
use expense_world_engine.Schema.{Db, InboxItem, Transaction, Reconciliation, draft, completed}
use expense_world_engine.Exec.Keeps.{Keeps, Keeps-modify, Keeps-seq, Keeps-pure}
use expense_world_engine.Query.{dynamic_update, update_returning, update_rows, soft_delete}
use expense_world_engine.Query.Owned.{update_returning-Keeps}
use expense_world_engine.Ledger.Rows.{is_reconciliation}
use expense_world_engine.Ledger.Balance.{signed, signed_cents}
use expense_world_engine.Ledger.Keeps.{create_transaction-Keeps, create_batch-Keeps}
use expense_world_engine.Inbox.Keeps.{
  create_inbox_item-Keeps, update_inbox_item-Keeps, delete_inbox_item-Keeps,
  promote_inbox_item-Keeps,
}
use expense_world_engine.Schema.Tables
use expense_world_engine.Reconciliations.{
  is_fetched, is_assigned, difference_cents, assigned_cents, complete_reconciliation,
  revert_reconciliation,
}
use expense_world_engine.Reconciliations.Keeps.{create_reconciliation-Keeps}
use expense_world_engine.Reconciliations.Sealed.{LockedPart, locked_part, IsSealed, IsSealedRow}
use expense_world_engine.Calls.{Call, serve, serve_all}
use expense_world_engine.Calls.Sealed
use expense_world_engine.Calls.Sealed.Transitions
use expense_world_engine.Calls.Sealed.Fields

module _ (rid u : ℕ) (beginning ending : ℤ) (rows : List LockedPart) where
  abbrev S : Db → Type 0
  S = IsSealed rid u beginning ending rows

  edit_inbox :
      (p : InboxItem → Bool) (f : ℕ → InboxItem → InboxItem)
      → Keeps S (update_returning Tables.inbox p f)
  unfolding update_rows
  edit_inbox p f = update_returning-Keeps Tables.inbox _ _ (
      Keeps-modify _ (λ db h. record {
        unique = h.unique;
        present = h.present;
        sealed = h.sealed;
        assigned = h.assigned;
      }))

  pub keeps_call : (call : Call) → call ≢ Call.revert_reconciliation rid → Keeps S (serve u call)
  unfolding serve complete_reconciliation revert_reconciliation dynamic_update soft_delete
  keeps_call (Call.create_transaction body) other =
      Keeps-seq _ _
        (create_transaction-Keeps (Sealed.Seal-SurvivesSideWrites rid u beginning ending rows)
          (Transitions.insert_transaction-IsSealed rid u beginning ending rows) body false)
        (Keeps-pure tt)
  keeps_call (Call.create_batch items) other =
      Keeps-seq _ _
        (create_batch-Keeps (Sealed.Seal-SurvivesSideWrites rid u beginning ending rows)
          (Transitions.insert_transaction-IsSealed rid u beginning ending rows) items)
        (Keeps-pure tt)
  keeps_call (Call.update_transaction i f ids recon) other =
      Keeps-seq _ _ (Sealed.update-IsSealed rid u beginning ending rows i f ids recon)
        (Keeps-pure tt)
  keeps_call (Call.delete_transaction i) other =
      Keeps-seq _ _ (Sealed.delete-IsSealed rid u beginning ending rows i) (Keeps-pure tt)
  keeps_call (Call.restore_transaction i) other =
      Keeps-seq _ _ (Sealed.restore-IsSealed rid u beginning ending rows i) (Keeps-pure tt)
  keeps_call (Call.create_inbox_item body) other =
      Keeps-seq _ _
        (create_inbox_item-Keeps (Sealed.Seal-SurvivesSideWrites rid u beginning ending rows) body (
          Keeps-modify _ (λ db h. record {
            unique = h.unique;
            present = h.present;
            sealed = h.sealed;
            assigned = h.assigned;
          })))
        (Keeps-pure tt)
  keeps_call (Call.update_inbox_item i f) other =
      Keeps-seq _ _
        (update_inbox_item-Keeps (Sealed.Seal-SurvivesSideWrites rid u beginning ending rows) i f
          (edit_inbox _ _))
        (Keeps-pure tt)
  keeps_call (Call.delete_inbox_item i) other =
      Keeps-seq _ _
        (delete_inbox_item-Keeps (Sealed.Seal-SurvivesSideWrites rid u beginning ending rows) i
          (edit_inbox _ _))
        (Keeps-pure tt)
  keeps_call (Call.promote_inbox_item i target) other =
      Keeps-seq _ _
        (promote_inbox_item-Keeps (Sealed.Seal-SurvivesSideWrites rid u beginning ending rows)
          (Transitions.insert_transaction-IsSealed rid u beginning ending rows) i target
          (edit_inbox _ _))
        (Keeps-pure tt)
  keeps_call (Call.create_reconciliation body) other =
      Keeps-seq _ _
        (create_reconciliation-Keeps (Sealed.Seal-SurvivesSideWrites rid u beginning ending rows)
          body (Transitions.insert_reconciliation-IsSealed rid u beginning ending rows body))
        (Keeps-pure tt)
  keeps_call (Call.update_reconciliation i f) other =
      Keeps-seq _ _ (Fields.update-IsSealed rid u beginning ending rows i f) (Keeps-pure tt)
  keeps_call (Call.complete_reconciliation i) other =
      Keeps-seq _ _
        (Transitions.transition-IsSealed rid u beginning ending rows i completed true (λ _. refl))
        (Keeps-pure tt)
  keeps_call (Call.revert_reconciliation i) other =
      Keeps-seq _ _
        (Transitions.transition-IsSealed rid u beginning ending rows i draft false
          (λ e. absurd (other (same_id e))))
        (Keeps-pure tt)
    where
      same_id : (i == rid) ≡ true → Call.revert_reconciliation i ≡ Call.revert_reconciliation rid
      same_id e = ap Call.revert_reconciliation (ground (arith, e))
  keeps_call (Call.delete_reconciliation i) other =
      Keeps-seq _ _ (Transitions.delete-IsSealed rid u beginning ending rows i) (Keeps-pure tt)
  keeps_call (Call.restore_reconciliation i) other =
      Keeps-seq _ _ (Transitions.restore-IsSealed rid u beginning ending rows i) (Keeps-pure tt)

  -- Any history of calls by the owner, none of which reverts the reconciliation, keeps it
  -- completed and active with its two balances, and keeps which transactions are assigned to it,
  -- their titles, dates, accounts, types and amounts; ledger ids are assumed unique.
  pub serve_all-IsSealed :
      (calls : List Call) (db : Db)
      → All (λ call. call ≢ Call.revert_reconciliation rid) calls
      → IsSealed rid u beginning ending rows db
      → IsSealed rid u beginning ending rows (serve_all u calls db)
  unfolding serve_all
  serve_all-IsSealed [] db others h = h
  serve_all-IsSealed (call ∷ calls) db others h =
      serve_all-IsSealed calls (serve u call db).1 others.1 ((keeps_call call others.0).at db h)

  locked_cents : LockedPart → ℤ
  locked_cents l = signed l.transaction_type l.amount_cents

  sum_of_parts :
      (ts : List Transaction) → sum_by signed_cents ts ≡ sum_by locked_cents (map locked_part ts)
  unfolding sum_by locked_cents
  sum_of_parts [] = refl
  sum_of_parts (t ∷ ts) = rw (sum_of_parts ts)

  sealed_difference :
      (db : Db) (r : Reconciliation)
      → IsSealed rid u beginning ending rows db
      → find (is_fetched rid u false) db.reconciliations ≡ some r
      → difference_cents db.transactions r ≡ (ending -ℤ beginning) -ℤ sum_by locked_cents rows
  unfolding difference_cents assigned_cents view
  sealed_difference db r h found = rw (same_id here) (
      rw (same_owner here) (
        rw (k.ending_kept here) (
          rw (k.beginning_kept here)
            (rw (sum_of_parts (select (is_assigned rid u) db.transactions)) (rw h.assigned refl)))))
    where
      here : is_reconciliation rid u r ≡ true
      here = ground (arith, find_holds (is_fetched rid u false) db.reconciliations r found)

      k : IsSealedRow rid u beginning ending r
      k =
          All-find (IsSealedRow rid u beginning ending) (is_fetched rid u false) db.reconciliations
            r h.sealed found

      same_id : is_reconciliation rid u r ≡ true → r.id ≡ rid
      same_id e = ground (arith, e)

      same_owner : is_reconciliation rid u r ≡ true → r.user_id ≡ u
      same_owner e = ground (arith, e)

  -- The difference that a completed reconciliation reports is the same after any history of calls
  -- by the owner that does not revert it; ledger ids are assumed unique.
  pub serve_all-difference_cents :
      (calls : List Call) (db : Db) (r after : Reconciliation)
      → All (λ call. call ≢ Call.revert_reconciliation rid) calls
      → IsSealed rid u beginning ending rows db
      → find (is_fetched rid u false) db.reconciliations ≡ some r
      → find (is_fetched rid u false) (serve_all u calls db).reconciliations ≡ some after
      → difference_cents (serve_all u calls db).transactions after
        ≡ difference_cents db.transactions r
  serve_all-difference_cents calls db r after others h found found_after =
      sealed_difference (serve_all u calls db) after (serve_all-IsSealed calls db others h)
        found_after
      ∙ sym (sealed_difference db r h found)
