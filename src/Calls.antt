-- ===== src/Calls.antt =====
-- The write routes of the ledger, the inbox and the reconciliations (app/routers/transactions.py,
-- inbox.py, reconciliations.py): each hands one service function to `run_idempotent`.
pub mod Keeps
pub mod Tenant
pub mod Audit
pub mod Versions
pub mod Sealed
use expense_world_engine.Base.{ℕ, ◌≡◌, Bool, false, Option, List, [], ◌∷◌}
use expense_world_engine.Schema.{Db}
use expense_world_engine.Exec.{Exec, pure, ◌>>=◌, ◌>>◌}
use expense_world_engine.Ledger.Requests.{TransactionCreateRequest, TransactionFields}
use expense_world_engine.Ledger.Create
use expense_world_engine.Ledger.Edit
use expense_world_engine.Ledger.Remove
use expense_world_engine.Inbox.{InboxCreateRequest, InboxUpdateRequest}
use expense_world_engine.Inbox
use expense_world_engine.Inbox.Promote
use expense_world_engine.Reconciliations.{ReconciliationCreate, ReconciliationFields}
use expense_world_engine.Reconciliations

pub data Call : Type 0 where
  create_transaction : TransactionCreateRequest → Call
  create_batch : List TransactionCreateRequest → Call
  -- the id, the fields, the tags if sent, and the reconciliation if sent
  update_transaction : ℕ → TransactionFields → Option (List ℕ) → Option (Option ℕ) → Call
  delete_transaction restore_transaction : ℕ → Call
  create_inbox_item : InboxCreateRequest → Call
  update_inbox_item : ℕ → InboxUpdateRequest → Call
  delete_inbox_item : ℕ → Call
  -- the draft and the id of the new ledger row
  promote_inbox_item : ℕ → ℕ → Call
  create_reconciliation : ReconciliationCreate → Call
  update_reconciliation : ℕ → ReconciliationFields → Call
  complete_reconciliation revert_reconciliation : ℕ → Call
  delete_reconciliation restore_reconciliation : ℕ → Call

-- What a route's `work` does, its response body dropped.
unfoldable pub serve : ℕ → Call → Exec Unit
serve u (create_transaction body) = Create.create_transaction u body false >> pure tt
serve u (create_batch items) = Create.create_batch u items >> pure tt
serve u (update_transaction i f ids recon) = Edit.update_transaction u i f ids recon >> pure tt
serve u (delete_transaction i) = Remove.delete_transaction u i >> pure tt
serve u (restore_transaction i) = Remove.restore_transaction u i >> pure tt
serve u (create_inbox_item body) = Inbox.create_inbox_item u body >> pure tt
serve u (update_inbox_item i f) = Inbox.update_inbox_item u i f >> pure tt
serve u (delete_inbox_item i) = Inbox.delete_inbox_item u i >> pure tt
serve u (promote_inbox_item i target) = Promote.promote_inbox_item u i target >> pure tt
serve u (create_reconciliation body) = Reconciliations.create_reconciliation u body >> pure tt
serve u (update_reconciliation i f) = Reconciliations.update_reconciliation u i f >> pure tt
serve u (complete_reconciliation i) = Reconciliations.complete_reconciliation u i >> pure tt
serve u (revert_reconciliation i) = Reconciliations.revert_reconciliation u i >> pure tt
serve u (delete_reconciliation i) = Reconciliations.delete_reconciliation u i >> pure tt
serve u (restore_reconciliation i) = Reconciliations.restore_reconciliation u i >> pure tt

-- A history of calls; a call that raises leaves what it wrote.
unfoldable pub serve_all : ℕ → List Call → Db → Db
serve_all u [] db = db
serve_all u (call ∷ calls) db = serve_all u calls (serve u call db).1
