-- ===== src/Reconciliations/Sealed/Guards.antt =====
-- What a request that passes the guards of app/helpers/transactions.py can change of a transaction,
-- while a reconciliation is sealed.
use expense_world_engine.Base.{
  ℕ, ◌≡◌, refl, ◌∙◌, Bool, true, false, Bool-cases, Option-cases, inl, inr, arith, Option, none,
  some, List, [], ◌==◌, is_at, is_some, or_else,
}
use expense_world_engine.Base.Int.{ℤ}
use expense_world_engine.Base.Rows.{Alike}
use expense_world_engine.Schema.{Db, Transaction, Reconciliation}
use expense_world_engine.Schema.Tables
use expense_world_engine.Exec.Outcome.{
  Triple, Triple-bind, Triple-gets, Triple-or_raise, Triple-raise_if, Triple-raise_errors,
  Triple-post, Triple-pure,
}
use expense_world_engine.Ledger.Requests.{TransactionFields}
use expense_world_engine.Ledger.Rows.{fetch_recon_status}
use expense_world_engine.Ledger.Edit.{
  attempted, is_locking, check_field_lock, check_assignment, set_columns, set_amount,
}
use expense_world_engine.Ledger.Remove.{
  check_delete_lock, unlink_reason, resolve_reconciliation, reopen,
}
use expense_world_engine.Reconciliations.{is_assigned}
use expense_world_engine.Reconciliations.Sealed.{
  IsSealed, LockedPart, locked_part, sealed-is_locking, sealed-is_completed,
}

unlinks : (o : Option Reconciliation) → is_locking o ≡ true → is_some (unlink_reason o) ≡ true
unlinks none h = refl
unlinks (some r) h = ground arith

module _ {rid u : ℕ} {beginning ending : ℤ} {rows : List LockedPart} {S : Db → Type 0}
    (safe : (db : Db) → S db → IsSealed rid u beginning ending rows db) where
  pub check_field_lock-Triple :
      (row : Transaction) (f : TransactionFields) (b : Bool)
      → Triple S
          (check_field_lock u row f b)
          (λ _ db. S db × (is_at row.reconciliation_id rid ≡ true → attempted f b ≡ []))
          (IsSealed rid u beginning ending rows)
  unfolding check_field_lock fetch_recon_status
  check_field_lock-Triple row f b = elim (Option-cases row.reconciliation_id) [
    | inl n ↦
        rw n (Triple-post (λ _ db h. (h.0, λ e. absurd (ground (arith, e)))) (Triple-pure safe tt))
    | inr (i, n) ↦ rw n (
        Triple-bind (Triple-gets safe _) λ o.
          Triple-post
            (λ _ db h. (
              h.0.0,
              λ e. ground (
                arith,
                h.1,
                sealed-is_locking rid u beginning ending db i o (safe db h.0.0) e h.0.1,
              ),
            ))
            (Triple-raise_errors (λ db h. safe db h.0) _ _))
  ]

  pub check_delete_lock-Triple :
      (row : Transaction)
      → Triple S
          (check_delete_lock u row)
          (λ _ db. S db × (is_at row.reconciliation_id rid ≡ false))
          (IsSealed rid u beginning ending rows)
  unfolding check_delete_lock fetch_recon_status
  check_delete_lock-Triple row = elim (Option-cases row.reconciliation_id) [
    | inl n ↦ rw n (Triple-post (λ _ db h. (h.0, refl)) (Triple-pure safe tt))
    | inr (i, n) ↦ rw n (
        Triple-bind (Triple-gets safe _) λ o.
          Triple-post
            (λ _ db h. (
              h.0.0,
              ground (
                arith,
                h.1,
                sealed-is_locking rid u beginning ending db i o (safe db h.0.0) _ h.0.1,
              ),
            ))
            (Triple-raise_if (λ db h. safe db h.0) _ _))
  ]

  pub check_assignment-Triple :
      (row : Transaction) (f : TransactionFields) (recon : Option (Option ℕ))
      → Triple S
          (check_assignment u row f recon)
          (λ _ db. S db × (is_at (or_else recon none) rid ≡ false))
          (IsSealed rid u beginning ending rows)
  unfolding check_assignment
  check_assignment-Triple row f recon = elim (Option-cases (or_else recon none)) [
    | inl n ↦ rw n (Triple-post (λ _ db h. (h.0, refl)) (Triple-pure safe tt))
    | inr (i, n) ↦ rw n (
        Triple-bind (Triple-gets safe _) λ o.
          Triple-bind (Triple-or_raise (λ db h. safe db h.0) o _) λ r.
            Triple-bind (Triple-raise_if (λ db h. safe db h.0.0) _ _) λ _.
              Triple-post
                (λ _ db h. (
                  h.0.0.0.0,
                  elim (Bool-cases (i == rid)) [
                    | inl e ↦ ground (
                      arith,
                      h.1,
                      sealed-is_completed rid u beginning ending db i r (safe db h.0.0.0.0) e
                          (h.0.0.0.1 ∙ h.0.0.1),
                    )
                    | inr e ↦ e
                  ],
                ))
                (Triple-raise_if (λ db h. safe db h.0.0.0) _ _))
  ]

  pub resolve_reconciliation-Triple :
      (row : Transaction)
      → Triple S
          (resolve_reconciliation u row)
          (λ w db. S db × (is_at row.reconciliation_id rid ≡ true → is_some w ≡ true))
          (IsSealed rid u beginning ending rows)
  unfolding resolve_reconciliation fetch_recon_status
  resolve_reconciliation-Triple row = elim (Option-cases row.reconciliation_id) [
    | inl n ↦
        rw n
          (Triple-post (λ _ db h. (h.0, λ e. absurd (ground (arith, e)))) (Triple-pure safe none))
    | inr (i, n) ↦ rw n (
        Triple-bind (Triple-gets safe _) λ o.
          Triple-post
            (λ w db h. (
              h.0.0,
              λ e. rw h.1 (
                  unlinks o
                    (sealed-is_locking rid u beginning ending db i o (safe db h.0.0) e h.0.1)),
            ))
            (Triple-pure (λ db h. safe db h.0) _))
  ]

module _ (rid u : ℕ) (now : ℕ) where
  pub reopen-Alike :
      (row : Transaction) (unlink : Bool)
      → is_some row.deleted_at ≡ true
      → (is_at row.reconciliation_id rid ≡ true → unlink ≡ true)
      → Alike (is_assigned rid u) locked_part (reopen unlink now row) row
  reopen-Alike row true gone h = record {
    chosen = ground arith;
    seen = λ e. absurd (ground (arith, e));
  }
  reopen-Alike row false gone h = record {
    chosen = ground (arith, h);
    seen = λ e. absurd (ground (arith, e));
  }

  -- A closed row that is not assigned to the reconciliation does not show.
  pub close-Alike :
      (row : Transaction)
      → is_at row.reconciliation_id rid ≡ false
      → Alike
          (is_assigned rid u)
          locked_part
          (Tables.transactions.touched now (Tables.transactions.with_deleted (some now) row))
          row
  close-Alike row h = record {
    chosen = ground (arith, h);
    seen = λ e. absurd (ground (arith, e, h));
  }

  -- Nothing that a lock names was sent.
  record IsHarmless (f : TransactionFields) (recon : Option (Option ℕ)) : Type 0 where
    no_amount : f.amount_cents ≡ none
    no_account : f.account_id ≡ none
    no_title : f.title ≡ none
    no_date : f.date ≡ none
    no_reconciliation : recon ≡ none

  none_of : {A : Type 0} (o : Option A) → is_some o ≡ false → o ≡ none
  none_of none h = refl
  none_of (some a) h = ground arith

  attempted-IsHarmless :
      (f : TransactionFields) (recon : Option (Option ℕ))
      → attempted f (is_some recon) ≡ []
      → IsHarmless f recon
  unfolding attempted
  attempted-IsHarmless f recon h = record {
    no_amount = none_of f.amount_cents (ground (arith, h));
    no_account = none_of f.account_id (ground (arith, h));
    no_title = none_of f.title (ground (arith, h));
    no_date = none_of f.date (ground (arith, h));
    no_reconciliation = none_of recon (ground (arith, h));
  }

  set_amount_reconciliation :
      (o : Option ℤ) (r : Transaction) → (set_amount o r).reconciliation_id ≡ r.reconciliation_id
  set_amount_reconciliation none r = refl
  set_amount_reconciliation (some v) r = refl

  pub set_columns-Alike :
      (row : Transaction) (f : TransactionFields) (recon : Option (Option ℕ))
      → (is_at row.reconciliation_id rid ≡ true → attempted f (is_some recon) ≡ [])
      → is_at (or_else recon none) rid ≡ false
      → Alike
          (is_assigned rid u)
          locked_part
          (Tables.transactions.touched now (set_columns f recon row))
          row
  set_columns-Alike row f recon lock assign = elim (Bool-cases (is_at row.reconciliation_id rid)) [
    | inl e ↦ harmless (attempted-IsHarmless f recon (lock e))
    | inr e ↦ record {
      chosen =
          rw (set_amount_reconciliation f.amount_cents _) (rw (stays recon e assign) (rw e refl));
      seen = λ k. absurd (ground (arith, k, e));
    }
  ]
    where
      harmless :
          IsHarmless f recon
          → Alike
              (is_assigned rid u)
              locked_part
              (Tables.transactions.touched now (set_columns f recon row))
              row
      harmless k = record {
        chosen = rw k.no_amount (rw k.no_reconciliation refl);
        seen = λ _. rw k.no_amount (rw k.no_account (rw k.no_title (rw k.no_date refl)));
      }

      stays :
          (o : Option (Option ℕ))
          → is_at row.reconciliation_id rid ≡ false
          → is_at (or_else o none) rid ≡ false
          → is_at (or_else o row.reconciliation_id) rid ≡ false
      stays none k h = k
      stays (some i) k h = h
