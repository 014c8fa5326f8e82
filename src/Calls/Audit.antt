-- ===== src/Calls/Audit.antt =====
-- The activity log under the calls: app/helpers/activity_log.py and its callers.
pub mod Logs
pub mod Transactions
pub mod Drafts
pub mod Batch
pub mod Returns
use expense_world_engine.Base.{ℕ, ◌≡◌, refl, ap, List, [], ◌∷◌, ◌++◌, All}
use expense_world_engine.Schema.{Db, LogEntry}
use expense_world_engine.Schema.Tables
use expense_world_engine.Exec.Keeps.{Keeps-modify}
use expense_world_engine.Query.{update_rows, dynamic_update, soft_delete, restore}
use expense_world_engine.Query.Owned.{update_returning-Keeps}
use expense_world_engine.Calls.{Call, serve}
use expense_world_engine.Calls.Keeps.{SurvivesCalls, serve-Keeps}

-- The log of `b` is the log of `a` under new entries that user `u` owns and made; nothing else is said of `b`.
abbrev pub Appends : ℕ → Db → Db → Type 0
Appends u a b =
    (new : List LogEntry) × (b.activity_log ≡ new ++ a.activity_log)
    × All (λ (e : LogEntry). (e.user_id ≡ u) × (e.changed_by ≡ u)) new

pub Appends-SurvivesCalls : (u : ℕ) (a : Db) → SurvivesCalls u (Appends u a)
unfolding dynamic_update soft_delete restore update_rows
Appends-SurvivesCalls u a = record {
  side = record {
    links = λ js db h. h;
    log = λ e db own h. (e ∷ h.0, ap (λ l. e ∷ l) h.1, (own, h.2));
  };
  insert_transaction = λ n db fresh h. h;
  insert_item = λ body db h. h;
  insert_reconciliation = λ body t db fresh h. h;
  edit_transaction =
      λ i f recon. update_returning-Keeps Tables.transactions _ _ (Keeps-modify _ (λ db h. h));
  close_transaction =
      λ i. update_returning-Keeps Tables.transactions _ _ (Keeps-modify _ (λ db h. h));
  reopen_transaction =
      λ i unlink. update_returning-Keeps Tables.transactions _ _ (Keeps-modify _ (λ db h. h));
  edit_item = λ i f. update_returning-Keeps Tables.inbox _ _ (Keeps-modify _ (λ db h. h));
  close_item = λ i. update_returning-Keeps Tables.inbox _ _ (Keeps-modify _ (λ db h. h));
  retire_item = λ i. update_returning-Keeps Tables.inbox _ _ (Keeps-modify _ (λ db h. h));
  edit_reconciliation =
      λ i f. update_returning-Keeps Tables.reconciliations _ _ (Keeps-modify _ (λ db h. h));
  flip = λ i target. Keeps-modify _ (λ db h. h);
  touch_assigned = λ i. Keeps-modify _ (λ db h. h);
  unassign = λ i. Keeps-modify _ (λ db h. h);
  close_reconciliation =
      λ i. update_returning-Keeps Tables.reconciliations _ _ (Keeps-modify _ (λ db h. h));
  reopen_reconciliation =
      λ i. update_returning-Keeps Tables.reconciliations _ _ (Keeps-modify _ (λ db h. h));
}

-- A call of user `u` alters and drops no entry of the activity log, whether it returns or raises:
-- the log after it is the log before under entries whose owner and whose actor
-- (`changed_by`) is `u`.
pub serve-Appends : (u : ℕ) (call : Call) (db : Db) → Appends u db (serve u call db).1
serve-Appends u call db = (serve-Keeps (Appends-SurvivesCalls u db) call).at db ([], refl, tt)
