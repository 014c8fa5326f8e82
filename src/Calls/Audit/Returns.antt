-- ===== src/Calls/Audit/Returns.antt =====
-- The audit rows of the write routes of app/routers/transactions.py, inbox.py and
-- reconciliations.py, for a call that returns and for one that raises.
use expense_world_engine.Base.{
  ℕ, ◌≡◌, refl, subst, sym, Bool, true, false, Option, List, [], ◌⊎◌, inl, inr,
}
use expense_world_engine.Schema.{Db, ReconciliationStatus, draft, completed}
use expense_world_engine.Exec.{Exec, Result, ok, err, pure, ◌>>◌}
use expense_world_engine.Exec.Keeps.{Keeps, Keeps-pure, Keeps-gets, Keeps-raise_if}
use expense_world_engine.Exec.Outcome.{
  Outcome, Triple, Triple-Keeps, Triple-weaken, Triple-pre, Triple-post, Triple-bind, Triple-if,
}
use expense_world_engine.Ledger.Keeps.{fetch_unchanged-Keeps}
use expense_world_engine.Ledger.Edit.{update_transaction}
use expense_world_engine.Inbox.{update_inbox_item}
use expense_world_engine.Inbox.Keeps.{fetch_item-Keeps}
use expense_world_engine.Reconciliations.{
  update_reconciliation, transition_status, complete_reconciliation, revert_reconciliation,
}
use expense_world_engine.Reconciliations.Keeps.{fetch_or_404-Keeps}
use expense_world_engine.Calls.{Call, serve}
use expense_world_engine.Calls.Audit.{Appends, serve-Appends}
use expense_world_engine.Calls.Audit.Logs.{Logs, IsLogged, Logs-then}
use expense_world_engine.Calls.Audit.Transactions.{
  create_transaction-Logs, update_nonempty-Logs, delete_transaction-Logs, restore_transaction-Logs,
}
use expense_world_engine.Calls.Audit.Batch.{create_batch-Logs}
use expense_world_engine.Calls.Audit.Drafts.{
  create_inbox_item-Logs, update_sent-Logs, delete_inbox_item-Logs, promote_inbox_item-Logs,
  create_reconciliation-Logs, update_fields-Logs, flip_status-Logs, delete_reconciliation-Logs,
  restore_reconciliation-Logs,
}

-- From the store `a`, `m` returns with the store as it was, or with an entry more.
abbrev Audits : ℕ → Db → {A : Type 0} → Exec A → Type 0
Audits u a m = Triple (λ db. db ≡ a) m (λ _ db. (db ≡ a) ⊎ IsLogged u a db) (λ _. Unit)

module _ (u : ℕ) (a : Db) {A : Type 0} where
  logged : {m : Exec A} → Logs u a m → Audits u a m
  logged l =
      Triple-pre (λ db e. subst (Appends u a) (sym e) ([], refl, tt))
        (Triple-post (λ x db h. inr h) l)

  unchanged : {m : Exec A} → Keeps (λ db. db ≡ a) m → Audits u a m
  unchanged k = Triple-post (λ x db h. inl h) (Triple-weaken (λ db h. tt) (Triple-Keeps k))

module _ (u : ℕ) (a : Db) where
  update_transaction-Audits :
      (i : ℕ) (f : _) (ids : Option (List ℕ)) (recon : Option (Option ℕ))
      → Audits u a (update_transaction u i f ids recon)
  unfolding update_transaction
  update_transaction-Audits i f ids recon =
      Triple-if _ (unchanged u a (fetch_unchanged-Keeps u i))
        (logged u a (update_nonempty-Logs u a i f ids recon))

  update_inbox_item-Audits : (i : ℕ) (f : _) → Audits u a (update_inbox_item u i f)
  unfolding update_inbox_item
  update_inbox_item-Audits i f =
      Triple-if _ (unchanged u a (fetch_item-Keeps u i)) (logged u a (update_sent-Logs u a i f))

  update_reconciliation-Audits : (i : ℕ) (f : _) → Audits u a (update_reconciliation u i f)
  unfolding update_reconciliation
  update_reconciliation-Audits i f =
      Triple-if _ (unchanged u a (fetch_or_404-Keeps u i false))
        (logged u a (update_fields-Logs u a i f))

  transition_status-Audits :
      (i : ℕ) (target : ReconciliationStatus) (require : Bool)
      → Audits u a (transition_status u i target require)
  unfolding transition_status
  transition_status-Audits i target require =
      Triple-bind (Triple-weaken (λ db h. tt) (Triple-Keeps (fetch_or_404-Keeps u i false)))
        λ before. Triple-if _ (unchanged u a (Keeps-pure before)) (
          logged u a (
            Logs-then u a _ _ (Keeps-gets _) λ assigned.
              Logs-then u a _ _ (Keeps-raise_if _ _) λ _. flip_status-Logs u a i target before))

-- What a call of user `u` leaves of the store `a`: one that returns has left it as it was or has
-- added at least one entry, and one that raises has only added entries.
abbrev pub IsAudited : ℕ → Db → Result Unit × Db → Type 0
IsAudited u a (ok x, b) = (b ≡ a) ⊎ IsLogged u a b
IsAudited u a (err e, b) = Appends u a b

audited :
    (u : ℕ) (a : Db) (r : Result Unit × Db)
    → Outcome (λ _ b. (b ≡ a) ⊎ IsLogged u a b) (λ _. Unit) r
    → Appends u a r.1
    → IsAudited u a r
audited u a (ok x, b) h k = h
audited u a (err e, b) h k = k

module _ (u : ℕ) (a : Db) where
  ends : {A : Type 0} (m : Exec A) → Audits u a m → Audits u a (m >> pure tt)
  ends m t = Triple-bind t λ x. Triple-weaken (λ db h. tt) (Triple-Keeps (Keeps-pure tt))

  serve-Audits : (call : Call) → Audits u a (serve u call)
  unfolding serve complete_reconciliation revert_reconciliation
  serve-Audits (Call.create_transaction body) =
      ends _ (logged u a (create_transaction-Logs u a body false))
  serve-Audits (Call.create_batch items) = ends _ (logged u a (create_batch-Logs u a items))
  serve-Audits (Call.update_transaction i f ids recon) =
      ends _ (update_transaction-Audits u a i f ids recon)
  serve-Audits (Call.delete_transaction i) = ends _ (logged u a (delete_transaction-Logs u a i))
  serve-Audits (Call.restore_transaction i) = ends _ (logged u a (restore_transaction-Logs u a i))
  serve-Audits (Call.create_inbox_item body) = ends _ (logged u a (create_inbox_item-Logs u a body))
  serve-Audits (Call.update_inbox_item i f) = ends _ (update_inbox_item-Audits u a i f)
  serve-Audits (Call.delete_inbox_item i) = ends _ (logged u a (delete_inbox_item-Logs u a i))
  serve-Audits (Call.promote_inbox_item i target) =
      ends _ (logged u a (promote_inbox_item-Logs u a i target))
  serve-Audits (Call.create_reconciliation body) =
      ends _ (logged u a (create_reconciliation-Logs u a body))
  serve-Audits (Call.update_reconciliation i f) = ends _ (update_reconciliation-Audits u a i f)
  serve-Audits (Call.complete_reconciliation i) =
      ends _ (transition_status-Audits u a i completed true)
  serve-Audits (Call.revert_reconciliation i) = ends _ (transition_status-Audits u a i draft false)
  serve-Audits (Call.delete_reconciliation i) =
      ends _ (logged u a (delete_reconciliation-Logs u a i))
  serve-Audits (Call.restore_reconciliation i) =
      ends _ (logged u a (restore_reconciliation-Logs u a i))

-- A call of user `u` that returns leaves the database as it was, or its log is the log before under
-- one new entry at least, and the owner and the actor (`changed_by`) of every new entry is `u`. A
-- call that raises has altered and dropped no entry, and what it added is the user's likewise.
pub serve-IsAudited : (u : ℕ) (call : Call) (db : Db) → IsAudited u db (serve u call db)
serve-IsAudited u call db =
    audited u db _ ((serve-Audits u db call).run db refl) (serve-Appends u call db)
