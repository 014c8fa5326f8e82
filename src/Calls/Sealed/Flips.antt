-- ===== src/Calls/Sealed/Flips.antt =====
-- The flip to completed of app/helpers/reconciliations.py, from a store with unique ids.
use expense_world_engine.Base.{
  ℕ, ◌≡◌, refl, sym, ◌∙◌, ap, true, false, Option-cases, inl, inr, arith, some, List, find, is_none,
  find_holds,
}
use expense_world_engine.Base.Int.{ℤ}
use expense_world_engine.Base.Rows.{view, view-update_where, All-find}
use expense_world_engine.Base.Sums.{IsUnique, IsUnique-update_where}
use expense_world_engine.Base.Replace.{find-update_where, exists_true, All-unique}
use expense_world_engine.Schema.{
  Db, Transaction, Resource, Reconciliation, ReconciliationResponse, completed,
}
use expense_world_engine.Schema.Tables
use expense_world_engine.Exec.{modify, not_found}
use expense_world_engine.Exec.Outcome.{
  Triple, Triple-bind, Triple-read, Triple-or_raise, Triple-gets, Triple-post, Triple-frame,
  Triple-pure,
}
use expense_world_engine.Query.{update_rows, is_owned}
use expense_world_engine.Ledger.Rows.{is_reconciliation, is_completed}
use expense_world_engine.Reconciliations.{
  is_assigned, is_fetched, project_found, fetch_reconciliation, fetch_or_404, with_status,
  flip_status,
}
use expense_world_engine.Reconciliations.Sealed.{LockedPart, locked_part, IsSealed, IsSealedRow}
use expense_world_engine.Calls.Sealed.{write_log}
use expense_world_engine.Calls.Sealed.Transitions.{row_of}

abbrev pub HasUniqueRows : Db → Type 0
HasUniqueRows db =
    IsUnique (λ (t : Transaction). t.id) db.transactions
    × IsUnique (λ (r : Reconciliation). r.id) db.reconciliations

abbrev pub Any : Db → Type 0
Any db = Unit

-- The rows that stand assigned.
abbrev pub assigned_parts : ℕ → ℕ → Db → List LockedPart
assigned_parts rid u db = view (is_assigned rid u) locked_part db.transactions

module _ (rid u : ℕ) where
  -- An active row that is completed is sealed.
  pub completed-IsSealed :
      (db : Db) (r : Reconciliation)
      → HasUniqueRows db
      → find (is_fetched rid u false) db.reconciliations ≡ some r
      → is_completed r ≡ true
      → IsSealed rid u r.beginning_balance_cents r.ending_balance_cents (assigned_parts rid u db) db
  completed-IsSealed db r unique found done = record {
    unique = unique.0;
    present =
        exists_true (is_fetched rid u false) (is_reconciliation rid u) db.reconciliations r
          (λ x e. ground (arith, e)) found;
    sealed =
        All-unique (IsSealedRow rid u r.beginning_balance_cents r.ending_balance_cents) (λ x. x.id)
          (is_fetched rid u false) rid db.reconciliations r (λ x e. ground (arith, e)) unique.1
          found
          (record {
            is_completed_row = λ _. done;
            is_active_row =
                λ _. active r (find_holds (is_fetched rid u false) db.reconciliations r found);
            beginning_kept = λ _. refl;
            ending_kept = λ _. refl;
          })
          (λ x n. record {
            is_completed_row = λ t. absurd (ground (arith, n, t));
            is_active_row = λ t. absurd (ground (arith, n, t));
            beginning_kept = λ t. absurd (ground (arith, n, t));
            ending_kept = λ t. absurd (ground (arith, n, t));
          });
    assigned = refl;
  }
    where
      active : (x : Reconciliation) → is_fetched rid u false x ≡ true → is_none x.deleted_at ≡ true
      active x e = ground (arith, e)

  -- The two UPDATEs of the flip seal the row that was read.
  flipped : Db → Db
  flipped db = update_rows Tables.transactions (is_assigned rid u) Tables.transactions.touched (
      update_rows Tables.reconciliations (is_owned Tables.reconciliations rid u)
        (with_status completed) db)

  flipped-IsSealed :
      (db : Db) (r : Reconciliation)
      → HasUniqueRows db
      → find (is_fetched rid u false) db.reconciliations ≡ some r
      → IsSealed rid u r.beginning_balance_cents r.ending_balance_cents
          (assigned_parts rid u db)
          (flipped db)
  unfolding flipped update_rows
  flipped-IsSealed db r unique found = rw (sym same_view) (
      completed-IsSealed (flipped db) (with_status completed db.now r)
        (
          IsUnique-update_where _ _ _ db.transactions (λ t. refl) unique.0,
          IsUnique-update_where _ _ _ db.reconciliations (λ x. refl) unique.1,
        )
        (find-update_where (is_fetched rid u false) (is_owned Tables.reconciliations rid u)
          (with_status completed db.now) db.reconciliations r (λ x. refl) found
          (owned r (find_holds (is_fetched rid u false) db.reconciliations r found)))
        refl)
    where
      owned :
          (x : Reconciliation)
          → is_fetched rid u false x ≡ true
          → is_owned Tables.reconciliations rid u x ≡ true
      owned x e = ground (arith, e)

      same_view : assigned_parts rid u (flipped db) ≡ assigned_parts rid u db
      same_view =
          view-update_where (is_assigned rid u) locked_part (is_assigned rid u)
            (Tables.transactions.touched db.now) db.transactions
            (λ t e. record { chosen = refl; seen = λ _. refl })

  module _ (beginning ending : ℤ) (rows : List LockedPart) where
    -- The response of a sealed row has its balances.
    fetch_or_404-balances :
        Triple
          (IsSealed rid u beginning ending rows)
          (fetch_or_404 u rid false)
          (λ after db.
            IsSealed rid u beginning ending rows db
            × ((after.row.beginning_balance_cents ≡ beginning)
                × (after.row.ending_balance_cents ≡ ending)))
          Any
    unfolding fetch_or_404 fetch_reconciliation
    fetch_or_404-balances = Triple-bind (Triple-gets (λ _ _. tt) _) λ o.
        Triple-post (λ after db h. (h.0.0, balances db after h.0.0 (h.0.1 ∙ h.1)))
          (Triple-or_raise (λ _ _. tt) o (not_found Resource.reconciliation))
      where
        is_here :
            (x : Reconciliation)
            → is_fetched rid u false x ≡ true
            → is_reconciliation rid u x ≡ true
        is_here x e = ground (arith, e)

        balances :
            (db : Db) (after : ReconciliationResponse)
            → IsSealed rid u beginning ending rows db
            → project_found db (find (is_fetched rid u false) db.reconciliations) ≡ some after
            → (after.row.beginning_balance_cents ≡ beginning)
              × (after.row.ending_balance_cents ≡ ending)
        balances db after h f =
            elim (Option-cases (find (is_fetched rid u false) db.reconciliations)) [
              | inl n ↦ absurd (ground (arith, n, f))
              | inr (r, n) ↦ rw (sym (row_of rid u beginning ending rows db r after (rw n at f))) (
                  let k =
                    All-find (IsSealedRow rid u beginning ending) (is_fetched rid u false)
                      db.reconciliations r h.sealed n in
                  let here =
                    is_here r (find_holds (is_fetched rid u false) db.reconciliations r n) in
                  (k.beginning_kept here, k.ending_kept here))
            ]

  -- The response and the store that a completion leaves, over the rows that stood assigned.
  abbrev pub Completed : List LockedPart → ReconciliationResponse → Db → Type 0
  Completed rows response db =
      IsSealed rid u response.row.beginning_balance_cents response.row.ending_balance_cents rows db

  module _ (start : Db) (r : Reconciliation) (unique : HasUniqueRows start)
      (found : find (is_fetched rid u false) start.reconciliations ≡ some r) where
    pub flip-Triple :
        (before : ReconciliationResponse)
        → Triple
            (λ db. db ≡ start)
            (flip_status u rid completed before)
            (Completed (assigned_parts rid u start))
            Any
    unfolding flip_status modify flipped
    flip-Triple before =
        Triple-bind
          {Q = λ _ db.
            db
            ≡ update_rows Tables.reconciliations (is_owned Tables.reconciliations rid u)
                (with_status completed) start}
          (record {
            run = λ db h.
                ap
                  (update_rows Tables.reconciliations (is_owned Tables.reconciliations rid u)
                    (with_status completed))
                  h;
          })
          λ _.
            Triple-bind
              {Q = λ _.
                IsSealed rid u r.beginning_balance_cents r.ending_balance_cents
                  (assigned_parts rid u start)}
              (record { run = λ db h. rw h (flipped-IsSealed start r unique found) })
              λ _.
                Triple-bind
                  (fetch_or_404-balances r.beginning_balance_cents r.ending_balance_cents
                    (assigned_parts rid u start))
                  λ after.
                    Triple-bind
                      (Triple-frame (
                        Triple-read (λ _ _. tt)
                          (write_log rid u r.beginning_balance_cents r.ending_balance_cents
                            (assigned_parts rid u start) _ _ _ _ _)))
                      λ _.
                        Triple-post (λ response db h. rw h.1 (rw h.0.1.0 (rw h.0.1.1 h.0.0)))
                          (Triple-pure (λ _ _. tt) after)
