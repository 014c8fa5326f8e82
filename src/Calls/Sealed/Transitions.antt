-- ===== src/Calls/Sealed/Transitions.antt =====
-- The calls of app/helpers/reconciliations.py on a completed reconciliation.
use expense_world_engine.Base.{
  ℕ, ◌≡◌, refl, sym, ◌∙◌, ◌==◌, Bool, true, false, Bool-cases, Option-cases, inl, inr, arith, some,
  List, ◌∷◌, find, exists, select, exists_false, find_holds,
}
use expense_world_engine.Base.Int.{ℤ}
use expense_world_engine.Base.Rows.{view, All-find}
use expense_world_engine.Schema.{
  Db, Text, Resource, Reconciliation, ReconciliationStatus, ReconciliationResponse, draft,
  completed,
}
use expense_world_engine.Schema.Tables
use expense_world_engine.Exec.{pure, not_found}
use expense_world_engine.Exec.Keeps.{Keeps, Keeps-modify, Keeps-seq, keeps_rules}
use expense_world_engine.Exec.Outcome.{
  Triple, Triple-bind, Triple-Keeps, Keeps-Triple, Triple-or_raise, Triple-gets, Triple-post,
  Triple-raise_if, Triple-pre,
}
use expense_world_engine.Query.{update_rows, soft_delete, restore}
use expense_world_engine.Query.Owned.{update_returning-Keeps}
use expense_world_engine.Ledger.Rows.{NewTransaction, new_row, is_reconciliation, is_completed}
use expense_world_engine.Reconciliations.{
  is_fetched, project, project_found, fetch_reconciliation, fetch_or_404, ReconciliationCreate,
  new_reconciliation, same_status, flip_status, transition_status, delete_reconciliation,
  restore_reconciliation,
}
use expense_world_engine.Reconciliations.Keeps.{
  flip_status-Keeps, mutate_refetched-Keeps, restore_reconciliation-Keeps,
}
use expense_world_engine.Reconciliations.Sealed.{
  LockedPart, IsSealedRow, update_rows-IsSealed, update_reconciliations-IsSealed,
}
use expense_world_engine.Calls.Sealed.{Seal, Seal-SurvivesSideWrites}

module _ (rid u : ℕ) (beginning ending : ℤ) (rows : List LockedPart) where
  abbrev S : Db → Type 0
  S = Seal rid u beginning ending rows

  pub insert_transaction-IsSealed :
      (n : NewTransaction) (db : Db)
      → exists (λ t. t.id == n.id) db.transactions ≡ false
      → S db
      → S (record db { transactions = new_row db.now u n ∷ db.transactions })
  unfolding view select
  insert_transaction-IsSealed n db fresh h = record {
    unique = (fresh, h.unique);
    present = h.present;
    sealed = h.sealed;
    assigned = h.assigned;
  }

  pub insert_reconciliation-IsSealed :
      (body : ReconciliationCreate) (t : Text) (db : Db)
      → exists (λ r. r.id == body.id) db.reconciliations ≡ false
      → S db
      → S (record db { reconciliations = new_reconciliation db.now u body t ∷ db.reconciliations })
  unfolding exists
  insert_reconciliation-IsSealed body t db fresh h = record {
    unique = h.unique;
    present = ground (arith, h.present);
    sealed = (
      record {
        is_completed_row = λ e. absurd (apart e);
        is_active_row = λ e. refl;
        beginning_kept = λ e. absurd (apart e);
        ending_kept = λ e. absurd (apart e);
      },
      h.sealed,
    );
    assigned = h.assigned;
  }
    where
      apart : is_reconciliation rid u (new_reconciliation db.now u body t) ≡ true → ⊥
      apart e =
          let missing =
            exists_false (λ r. r.id == body.id) (is_reconciliation rid u) db.reconciliations
              (λ r k. ground (arith, k, e)) fresh in
          let there = h.present in cc

  pub row_of :
      (db : Db) (r : Reconciliation) (before : ReconciliationResponse)
      → some (project db r) ≡ some before
      → r ≡ before.row
  row_of db r before h = ground (arith, h)

  -- The row that was read: if it is the reconciliation, it is completed.
  pub fetch_or_404-Triple :
      (i : ℕ) (gone : Bool)
      → Triple S
          (fetch_or_404 u i gone)
          (λ before db. S db × ((i == rid) ≡ true → is_completed before.row ≡ true))
          S
  unfolding fetch_or_404 fetch_reconciliation
  fetch_or_404-Triple i gone = Triple-bind (Triple-gets (λ db h. h) _) λ o.
      Triple-post (λ before db h. (h.0.0, λ e. completed_row db before h.0.0 e (h.0.1 ∙ h.1)))
        (Triple-or_raise (λ db h. h.0) o (not_found Resource.reconciliation))
    where
      completed_row :
          (db : Db) (before : ReconciliationResponse)
          → S db
          → (i == rid) ≡ true
          → project_found db (find (is_fetched i u gone) db.reconciliations) ≡ some before
          → is_completed before.row ≡ true
      completed_row db before h e f =
          elim (Option-cases (find (is_fetched i u gone) db.reconciliations)) [
            | inl n ↦ absurd (ground (arith, n, f))
            | inr (r, n) ↦ rw (sym (row_of db r before (rw n at f))) (
                (All-find (IsSealedRow rid u beginning ending) (is_fetched i u gone)
                    db.reconciliations r h.sealed n).is_completed_row
                  (ground (arith, e, find_holds (is_fetched i u gone) db.reconciliations r n)))
          ]

  -- An UPDATE of another reconciliation.
  pub apart-IsSealed :
      (i : ℕ) (p : Reconciliation → Bool) (f : ℕ → Reconciliation → Reconciliation) (db : Db)
      → (i == rid) ≡ false
      → ((r : Reconciliation) → p r ≡ true → (r.id == i) ≡ true)
      → ((r : Reconciliation) → (f db.now r).id ≡ r.id)
      → ((r : Reconciliation) → (f db.now r).user_id ≡ r.user_id)
      → S db
      → S (update_rows Tables.reconciliations p f db)
  apart-IsSealed i p f db apart by_id keep own h =
      update_reconciliations-IsSealed rid u beginning ending p f db
        (λ r. rw (keep r) (rw (own r) refl))
        (λ r e k. record {
          is_completed_row = λ t. absurd (other r e t);
          is_active_row = λ t. absurd (other r e t);
          beginning_kept = λ t. absurd (other r e t);
          ending_kept = λ t. absurd (other r e t);
        })
        h
    where
      other : (r : Reconciliation) → p r ≡ true → is_reconciliation rid u (f db.now r) ≡ true → ⊥
      other r e t = ground (arith, by_id r e, keep r, t, apart)

  flip-IsSealed :
      (i : ℕ) (target : ReconciliationStatus) (before : ReconciliationResponse)
      → (i == rid) ≡ false
      → Keeps S (flip_status u i target before)
  flip-IsSealed i target before apart =
      flip_status-Keeps (Seal-SurvivesSideWrites rid u beginning ending rows) i target before
        (Keeps-modify _ (λ db h.
          apart-IsSealed i _ _ db apart (λ r e. ground (arith, e)) (λ r. refl) (λ r. refl) h))
        (Keeps-modify _ (λ db h.
          update_rows-IsSealed rid u beginning ending _ _ db (λ t. refl)
            (λ t e. record { chosen = refl; seen = λ _. refl }) h))

  settled :
      (s t : ReconciliationStatus)
      → elim s [ draft ↦ false | completed ↦ true ] ≡ true
      → t ≡ completed
      → same_status s t ≡ true
  settled draft t h e = absurd (ground (arith, h))
  settled completed t h e = rw e refl

  -- To complete it again is no write; a transition of another one does not show.
  pub transition-IsSealed :
      (i : ℕ) (target : ReconciliationStatus) (require : Bool)
      → ((i == rid) ≡ true → target ≡ completed)
      → Keeps S (transition_status u i target require)
  unfolding transition_status pure
  transition-IsSealed i target require aim = Keeps-Triple (
      Triple-bind (fetch_or_404-Triple i false) λ before. elim (Bool-cases (i == rid)) [
        | inl e ↦ record { run = λ db h. rw (settled before.row.status target (h.1 e) (aim e)) h.0 }
        | inr e ↦
            Triple-pre (λ db h. h.0)
              (Triple-Keeps
                (let flip = flip-IsSealed i target before e in search keeps_rules depth 8))
      ])

  pub delete-IsSealed : (i : ℕ) → Keeps S (delete_reconciliation u i)
  unfolding delete_reconciliation soft_delete
  delete-IsSealed i = Keeps-Triple (
      Triple-bind (fetch_or_404-Triple i false) λ before.
        Triple-bind (Triple-raise_if (λ db h. h.0) (is_completed before.row) _) λ _.
          elim (Bool-cases (i == rid)) [
            | inl e ↦ record { run = λ db h. absurd (ground (arith, h.0.1 e, h.1)) }
            | inr e ↦
                Triple-pre (λ db h. h.0.0)
                  (Triple-Keeps (
                    Keeps-seq _ _
                      (Keeps-modify _ (λ db h.
                        update_rows-IsSealed rid u beginning ending _ _ db (λ t. refl)
                          (λ t k. record {
                            chosen = ground (arith, k, e);
                            seen = λ c. absurd (ground (arith, k, e, c));
                          })
                          h))
                      (mutate_refetched-Keeps (Seal-SurvivesSideWrites rid u beginning ending rows)
                        i before _ _ true
                        (update_returning-Keeps Tables.reconciliations _ _ (
                          Keeps-modify _ (λ db h.
                            apart-IsSealed i _ _ db e (λ r k. ground (arith, k)) (λ r. refl)
                              (λ r. refl) h))))))
          ])

  pub restore-IsSealed : (i : ℕ) → Keeps S (restore_reconciliation u i)
  unfolding restore
  restore-IsSealed i =
      restore_reconciliation-Keeps (Seal-SurvivesSideWrites rid u beginning ending rows) i (
        update_returning-Keeps Tables.reconciliations _ _ (
          Keeps-modify _ λ db h.
            update_reconciliations-IsSealed rid u beginning ending _ _ db (λ r. refl)
              (λ r e k. record {
                is_completed_row = λ t. k.is_completed_row t;
                is_active_row = λ t. refl;
                beginning_kept = λ t. k.beginning_kept t;
                ending_kept = λ t. k.ending_kept t;
              })
              h))
