-- ===== src/Calls/Sealed/Completes.antt =====
-- `complete_reconciliation` of app/helpers/reconciliations.py, from a store with unique ids.
use expense_world_engine.Base.{
  ℕ, ◌≡◌, refl, subst, ◌∙◌, true, false, Bool-cases, Option-cases, inl, inr, arith, some, [], find,
}
use expense_world_engine.Base.Int.{pos}
use expense_world_engine.Base.Sums.{IsUnique}
use expense_world_engine.Schema.{
  Db, Transaction, Resource, Reconciliation, ReconciliationStatus, ReconciliationResponse, draft,
  completed,
}
use expense_world_engine.Exec.{ok, not_found}
use expense_world_engine.Exec.Keeps.{Keeps-gets, Keeps-raise_if}
use expense_world_engine.Exec.Outcome.{
  Triple, Triple-bind, Triple-read, Triple-or_raise, Triple-gets, Triple-post, Triple-fact,
  Triple-pure, Triple-result,
}
use expense_world_engine.Reconciliations.{
  is_fetched, project_found, fetch_reconciliation, fetch_or_404, same_status, transition_status,
  complete_reconciliation,
}
use expense_world_engine.Reconciliations.Sealed.{IsSealed}
use expense_world_engine.Calls.Sealed.Transitions.{row_of}
use expense_world_engine.Calls.Sealed.Flips.{
  HasUniqueRows, Any, assigned_parts, completed-IsSealed, Completed, flip-Triple,
}

module _ (rid u : ℕ) where
  first-Triple :
      (start : Db)
      → Triple
          (λ db. db ≡ start)
          (fetch_or_404 u rid false)
          (λ before db.
            (db ≡ start)
            × ((r : Reconciliation) × ((find (is_fetched rid u false) start.reconciliations
                    ≡ some r)
                  × (r ≡ before.row))))
          Any
  unfolding fetch_or_404 fetch_reconciliation
  first-Triple start = Triple-bind (Triple-gets (λ _ _. tt) _) λ o.
      Triple-post (λ before db h. (h.0.0, read_row before (rw h.0.0 at (h.0.1 ∙ h.1))))
        (Triple-or_raise (λ _ _. tt) o (not_found Resource.reconciliation))
    where
      read_row :
          (before : ReconciliationResponse)
          → project_found start (find (is_fetched rid u false) start.reconciliations) ≡ some before
          → (r : Reconciliation) × ((find (is_fetched rid u false) start.reconciliations ≡ some r)
              × (r ≡ before.row))
      read_row before f =
          elim (Option-cases (find (is_fetched rid u false) start.reconciliations)) [
            | inl n ↦ absurd (ground (arith, n, f))
            | inr (r, n) ↦ (r, (n, row_of rid u (pos 0) (pos 0) [] start r before (rw n at f)))
          ]

  already :
      (s : ReconciliationStatus)
      → same_status s completed ≡ true
      → elim s [ draft ↦ false | completed ↦ true ] ≡ true
  already draft h = h
  already completed h = refl

  complete-Triple :
      (start : Db)
      → HasUniqueRows start
      → Triple
          (λ db. db ≡ start)
          (complete_reconciliation u rid)
          (Completed rid u (assigned_parts rid u start))
          Any
  unfolding complete_reconciliation transition_status
  complete-Triple start unique = Triple-bind (first-Triple start) λ before. Triple-fact λ h.
      elim (Bool-cases (same_status before.row.status completed)) [
        | inl e ↦ rw e (
            Triple-post
              (λ response db k. rw k.0 (
                rw k.1 (
                  subst
                    (λ (x : Reconciliation).
                      IsSealed rid u x.beginning_balance_cents x.ending_balance_cents
                        (assigned_parts rid u start) start)
                    h.1.1
                    (completed-IsSealed rid u start h.0 unique h.1.0
                      (rw h.1.1 (already before.row.status e))))))
              (Triple-pure (λ _ _. tt) before))
        | inr e ↦ rw e (
            Triple-bind (Triple-read (λ _ _. tt) (Keeps-gets _)) λ assigned.
              Triple-bind (Triple-read (λ _ _. tt) (Keeps-raise_if _ _))
                λ _. flip-Triple rid u start h.0 unique h.1.0 before)
      ]

  -- A completion that returns seals the reconciliation with the two balances of its response,
  -- over the transactions that stood assigned before it; the ids of the ledger rows and of the
  -- reconciliations are unique.
  pub complete_reconciliation-IsSealed :
      (start : Db)
      → IsUnique (λ (t : Transaction). t.id) start.transactions
      → IsUnique (λ (r : Reconciliation). r.id) start.reconciliations
      → (response : ReconciliationResponse) (after : Db)
      → complete_reconciliation u rid start ≡ (ok response, after)
      → IsSealed rid u response.row.beginning_balance_cents response.row.ending_balance_cents
          (assigned_parts rid u start)
          after
  complete_reconciliation-IsSealed start tx_unique recon_unique response after e =
      Triple-result (complete-Triple start (tx_unique, recon_unique)) start response after refl e
