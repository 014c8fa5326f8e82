-- ===== src/Calls/Sealed/Fields.antt =====
-- `update_reconciliation` of app/helpers/reconciliations.py on a completed reconciliation.
use expense_world_engine.Base.{
  ℕ, ◌≡◌, refl, ◌==◌, true, false, Bool-cases, inl, inr, arith, Option, none, some, List, [],
  is_some,
}
use expense_world_engine.Base.Int.{ℤ}
use expense_world_engine.Schema.{Db, Reconciliation, ReconciliationResponse}
use expense_world_engine.Schema.Tables
use expense_world_engine.Exec.Keeps.{Keeps, Keeps-if, keeps_rules}
use expense_world_engine.Exec.Outcome.{
  Triple, Triple-bind, Triple-Keeps, Keeps-Triple, Triple-raise_errors, Triple-pre,
}
use expense_world_engine.Query.{dynamic_update}
use expense_world_engine.Query.Found.{update_returning-Triple}
use expense_world_engine.Ledger.Keeps.{normalize_name-Keeps}
use expense_world_engine.Reconciliations.{
  ReconciliationFields, locked_fields, set_fields, apply_fields, update_fields,
  update_reconciliation,
}
use expense_world_engine.Reconciliations.Keeps.{fetch_or_404-Keeps}
use expense_world_engine.Reconciliations.Sealed.{
  LockedPart, IsSealedRow, update_reconciliations-IsSealed,
}
use expense_world_engine.Calls.Sealed.{Seal, write_log}
use expense_world_engine.Calls.Sealed.Transitions.{fetch_or_404-Triple, apart-IsSealed}

module _ (rid u : ℕ) (beginning ending : ℤ) (rows : List LockedPart) where
  abbrev S : Db → Type 0
  S = Seal rid u beginning ending rows

  none_of : {A : Type 0} (o : Option A) → is_some o ≡ false → o ≡ none
  none_of none h = refl
  none_of (some a) h = ground arith

  set_fields-IsSealedRow :
      (f : ReconciliationFields) (now : ℕ) (r : Reconciliation)
      → locked_fields f ≡ []
      → IsSealedRow rid u beginning ending r
      → IsSealedRow rid u beginning ending (Tables.reconciliations.touched now (set_fields f r))
  unfolding locked_fields
  set_fields-IsSealedRow f now r none_locked k = record {
    is_completed_row = λ t. k.is_completed_row t;
    is_active_row = λ t. k.is_active_row t;
    beginning_kept = λ t.
        rw (none_of f.beginning_balance_cents (ground (arith, none_locked))) (k.beginning_kept t);
    ending_kept =
        λ t. rw (none_of f.ending_balance_cents (ground (arith, none_locked))) (k.ending_kept t);
  }

  apply_fields-Triple :
      (i : ℕ) (f : ReconciliationFields) (before : ReconciliationResponse)
      → Triple
          (λ db. S db × ((i == rid) ≡ true → locked_fields f ≡ []))
          (apply_fields u i f before)
          (λ _. S)
          S
  unfolding apply_fields dynamic_update
  apply_fields-Triple i f before =
      Triple-bind
        (update_returning-Triple Tables.reconciliations _ _ λ db h. elim (Bool-cases (i == rid)) [
          | inl e ↦
              update_reconciliations-IsSealed rid u beginning ending _ _ db (λ r. refl)
                (λ r _ k. set_fields-IsSealedRow f db.now r (h.1 e) k) h.0
          | inr e ↦
              apart-IsSealed rid u beginning ending rows i _ _ db e (λ r k. ground (arith, k))
                (λ r. refl) (λ r. refl) h.0
        ])
        λ o. Triple-Keeps (
          let log = write_log rid u beginning ending rows in
          search (keeps_rules, fetch_or_404-Keeps, log) depth 12)

  pub update-IsSealed : (i : ℕ) (f : ReconciliationFields) → Keeps S (update_reconciliation u i f)
  unfolding update_reconciliation update_fields
  update-IsSealed i f = Keeps-if _ _ _ (fetch_or_404-Keeps u i false) (
      Keeps-Triple (
        Triple-bind (Triple-Keeps (search (keeps_rules, normalize_name-Keeps) depth 8)) λ _.
          Triple-bind (fetch_or_404-Triple rid u beginning ending rows i false) λ before.
            Triple-bind (Triple-raise_errors (λ db h. h.0) _ _) λ _.
              Triple-pre (λ db h. (h.0.0, λ e. rw (h.0.1 e) at h.1))
                (apply_fields-Triple i f before)))
