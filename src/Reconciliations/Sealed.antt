-- ===== src/Reconciliations/Sealed.antt =====
-- A completed reconciliation as an invariant, for the guards `check_field_lock`,
-- `check_assignment` and `check_delete_lock` of app/helpers/transactions.py.
pub mod Guards
use expense_world_engine.Base.{
  ℕ, ◌≡◌, refl, sym, ◌∙◌, Bool, true, false, Bool-cases, inl, inr, arith, Option, none, some, List,
  [], find, exists, ◌==◌, is_at, is_none, is_some, or_else, All, find_holds, exists-find,
  exists_false,
}
use expense_world_engine.Base.Int.{ℤ}
use expense_world_engine.Base.Rows.{
  view, Alike, view-update_where, view-update_unique, All-update_where, All-find,
  exists-update_where_keep,
}
use expense_world_engine.Base.Sums.{IsUnique, IsUnique-update_where}
use expense_world_engine.Schema.{
  Db, Text, Transaction, TransactionType, Reconciliation, draft, completed,
}
use expense_world_engine.Schema.Tables
use expense_world_engine.Query.{update_rows, is_owned, is_resolved}
use expense_world_engine.Ledger.Rows.{is_completed, is_reconciliation}
use expense_world_engine.Ledger.Edit.{is_locking, is_active_reconciliation}
use expense_world_engine.Reconciliations.{is_assigned}

-- The fields of an assigned transaction that a completed reconciliation locks, and its id.
pub record LockedPart : Type 0 where
  pub id : ℕ
  pub title : Text
  pub date : ℕ
  pub account_id : ℕ
  pub transaction_type : TransactionType
  pub amount_cents : ℕ

abbrev pub locked_part : Transaction → LockedPart
locked_part t = record {
  id = t.id;
  title = t.title;
  date = t.date;
  account_id = t.account_id;
  transaction_type = t.transaction_type;
  amount_cents = t.amount_cents;
}

module _ (rid u : ℕ) (beginning ending : ℤ) where
  -- If the row is the reconciliation, then it is completed and active, with these balances.
  pub record IsSealedRow (r : Reconciliation) : Type 0 where
    pub is_completed_row : is_reconciliation rid u r ≡ true → is_completed r ≡ true
    pub is_active_row : is_reconciliation rid u r ≡ true → is_none r.deleted_at ≡ true
    pub beginning_kept : is_reconciliation rid u r ≡ true → r.beginning_balance_cents ≡ beginning
    pub ending_kept : is_reconciliation rid u r ≡ true → r.ending_balance_cents ≡ ending

  pub record IsSealed (rows : List LockedPart) (db : Db) : Type 0 where
    pub unique : IsUnique (λ (t : Transaction). t.id) db.transactions
    pub present : exists (is_reconciliation rid u) db.reconciliations ≡ true
    pub sealed : All IsSealedRow db.reconciliations
    pub assigned : view (is_assigned rid u) locked_part db.transactions ≡ rows

  module _ {rows : List LockedPart} where
    -- The status that the guards read.
    pub sealed-is_locking :
        (db : Db) (i : ℕ) (o : Option Reconciliation)
        → IsSealed rows db
        → (i == rid) ≡ true
        → find (is_reconciliation i u) db.reconciliations ≡ o
        → is_locking o ≡ true
    sealed-is_locking db i none h e f =
        let missing =
          exists_false (is_reconciliation i u) (is_reconciliation rid u) db.reconciliations
            (λ r k. ground (arith, k, e))
            (exists-find (is_reconciliation i u) db.reconciliations f) in
        let there = h.present in cc
    sealed-is_locking db i (some r) h e f =
        let here = find_holds (is_reconciliation i u) db.reconciliations r f in
        (All-find IsSealedRow (is_reconciliation i u) db.reconciliations r h.sealed
            f).is_completed_row
          (ground (arith, here, e))

    pub sealed-is_completed :
        (db : Db) (i : ℕ) (r : Reconciliation)
        → IsSealed rows db
        → (i == rid) ≡ true
        → find (is_active_reconciliation i u) db.reconciliations ≡ some r
        → is_completed r ≡ true
    sealed-is_completed db i r h e f =
        let here = find_holds (is_active_reconciliation i u) db.reconciliations r f in
        (All-find IsSealedRow (is_active_reconciliation i u) db.reconciliations r h.sealed
            f).is_completed_row
          (ground (arith, here, e))

    -- An update of ledger rows that does not show.
    pub update_rows-IsSealed :
        (p : Transaction → Bool) (f : ℕ → Transaction → Transaction) (db : Db)
        → ((t : Transaction) → (f db.now t).id ≡ t.id)
        → ((t : Transaction) → p t ≡ true → Alike (is_assigned rid u) locked_part (f db.now t) t)
        → IsSealed rows db
        → IsSealed rows (update_rows Tables.transactions p f db)
    unfolding update_rows
    update_rows-IsSealed p f db keep alike h = record {
      unique = IsUnique-update_where _ p (f db.now) db.transactions keep h.unique;
      present = h.present;
      sealed = h.sealed;
      assigned =
          view-update_where (is_assigned rid u) locked_part p (f db.now) db.transactions alike
          ∙ h.assigned;
    }

    -- The update of one ledger row, found by its id.
    pub update_row-IsSealed :
        (i : ℕ) (gone : Bool) (p : Transaction → Bool) (f : ℕ → Transaction → Transaction) (db : Db)
        (row : Transaction)
        → ((t : Transaction) → p t ≡ true → (t.id == i) ≡ true)
        → ((t : Transaction) → (f db.now t).id ≡ t.id)
        → find (is_resolved Tables.transactions i u gone) db.transactions ≡ some row
        → Alike (is_assigned rid u) locked_part (f db.now row) row
        → IsSealed rows db
        → IsSealed rows (update_rows Tables.transactions p f db)
    unfolding update_rows
    update_row-IsSealed i gone p f db row by_id keep found alike h = record {
      unique = IsUnique-update_where _ p (f db.now) db.transactions keep h.unique;
      present = h.present;
      sealed = h.sealed;
      assigned =
          view-update_unique (is_assigned rid u) locked_part (λ t. t.id) p
            (is_resolved Tables.transactions i u gone) (f db.now) i db.transactions row by_id
            (λ t e. ground (arith, e)) h.unique found alike
          ∙ h.assigned;
    }

    -- An update of reconciliations that keeps ids and owners, and what is sealed.
    pub update_reconciliations-IsSealed :
        (p : Reconciliation → Bool) (f : ℕ → Reconciliation → Reconciliation) (db : Db)
        → ((r : Reconciliation) → is_reconciliation rid u (f db.now r) ≡ is_reconciliation rid u r)
        → ((r : Reconciliation) → p r ≡ true → IsSealedRow r → IsSealedRow (f db.now r))
        → IsSealed rows db
        → IsSealed rows (update_rows Tables.reconciliations p f db)
    unfolding update_rows
    update_reconciliations-IsSealed p f db same keep h = record {
      unique = h.unique;
      present =
          exists-update_where_keep (is_reconciliation rid u) p (f db.now) db.reconciliations same
          ∙ h.present;
      sealed = All-update_where IsSealedRow p (f db.now) db.reconciliations keep h.sealed;
      assigned = h.assigned;
    }
