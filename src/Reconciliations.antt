-- ===== src/Reconciliations.antt =====
-- app/helpers/reconciliations.py: a period with a beginning and an ending balance, the transactions
-- assigned to it, and its two states.
pub mod Sealed
pub mod Keeps
use expense_world_engine.Base.{
  ℕ, ◌≡◌, Bool, true, false, not, ◌&&◌, Option, none, some, List, [], ◌∷◌, ◌++◌, find, exists,
  select, update_where, ◌==◌, is_at, is_none, is_some, or_else, if◌then◌else◌,
}
use expense_world_engine.Base.Int.{ℤ, pos, ◌-ℤ◌}
use expense_world_engine.Base.Sums.{sum_by}
use expense_world_engine.Schema.{
  Text, Transaction, Reconciliation, ReconciliationStatus, draft, completed, ReconciliationResponse,
  ActivityAction, created, updated, deleted, restored, Resource, Snapshot, Db,
}
use expense_world_engine.Schema.Tables
use expense_world_engine.Exec.{
  Exec, Field, Msg, name, date_start, date_end, beginning_balance_cents, ending_balance_cents,
  transactions, locked_while_completed, delete_of_completed, at_least_one, already_exists,
  changed_concurrently, validation_failed, validation_error, conflict, not_found, pure, raise, gets,
  modify, raise_if, raise_errors, or_raise, for_some, ◌>>=◌, ◌>>◌,
}
use expense_world_engine.Text.{clean_name}
use expense_world_engine.Query.{
  dynamic_update, update_rows, is_owned, write_activity_log, soft_delete, restore,
}
use expense_world_engine.Validation.{flag, normalize_name, validate_active_account}
use expense_world_engine.Ledger.Rows.{is_completed, is_reconciliation}
use expense_world_engine.Ledger.Balance.{signed_cents}

-- WHERE t.reconciliation_id = rec.id AND t.user_id = rec.user_id AND t.deleted_at IS NULL
abbrev pub is_assigned : ℕ → ℕ → Transaction → Bool
is_assigned rid u t = is_at t.reconciliation_id rid && (t.user_id == u && is_none t.deleted_at)

unfoldable pub assigned_cents : ℕ → ℕ → List Transaction → ℤ
assigned_cents rid u ts = sum_by signed_cents (select (is_assigned rid u) ts)

-- `_DIFFERENCE_CENTS_SQL`
unfoldable pub difference_cents : List Transaction → Reconciliation → ℤ
difference_cents ts r =
    (r.ending_balance_cents -ℤ r.beginning_balance_cents) -ℤ assigned_cents r.id r.user_id ts

-- `RECONCILIATION_SELECT`, on one row
abbrev pub project : Db → Reconciliation → ReconciliationResponse
project db r = record { row = r; difference_cents = difference_cents db.transactions r }

abbrev pub is_fetched : ℕ → ℕ → Bool → Reconciliation → Bool
is_fetched i u gone r =
    is_reconciliation i u r && (if gone then is_some r.deleted_at else is_none r.deleted_at)

abbrev pub project_found : Db → Option Reconciliation → Option ReconciliationResponse
project_found db none = none
project_found db (some r) = some (project db r)

unfoldable pub fetch_reconciliation : ℕ → ℕ → Bool → Exec (Option ReconciliationResponse)
fetch_reconciliation u i gone =
    gets (λ db. project_found db (find (is_fetched i u gone) db.reconciliations))

unfoldable pub fetch_or_404 : ℕ → ℕ → Bool → Exec ReconciliationResponse
fetch_or_404 u i gone = do
  row ← fetch_reconciliation u i gone
  or_raise row (not_found Resource.reconciliation)

pub record ReconciliationCreate : Type 0 where
  pub id : ℕ
  pub account_id : ℕ
  pub name : Text
  pub date_start : Option ℕ
  pub date_end : Option ℕ
  pub beginning_balance_cents : ℤ
  pub ending_balance_cents : Option ℤ

abbrev pub new_reconciliation : ℕ → ℕ → ReconciliationCreate → Text → Reconciliation
new_reconciliation now u body stripped = record {
  id = body.id;
  user_id = u;
  account_id = body.account_id;
  name = stripped;
  date_start = body.date_start;
  date_end = body.date_end;
  status = draft;
  beginning_balance_cents = body.beginning_balance_cents;
  ending_balance_cents = or_else body.ending_balance_cents (pos 0);
  created_at = now;
  updated_at = now;
  version = 1;
  deleted_at = none;
}

-- The INSERT: the primary key is global, and a soft-deleted row keeps its id.
unfoldable pub insert_reconciliation_row : ℕ → ReconciliationCreate → Text → Exec Unit
insert_reconciliation_row u body stripped = do
  taken ← gets (λ db. exists (λ r. r.id == body.id) db.reconciliations)
  if taken
      then raise (conflict already_exists)
      else modify (λ db. record db {
        reconciliations = new_reconciliation db.now u body stripped ∷ db.reconciliations;
      })

unfoldable pub create_reconciliation : ℕ → ReconciliationCreate → Exec ReconciliationResponse
create_reconciliation u body = do
  validate_active_account body.account_id u
  stripped ← normalize_name body.name Field.name
  insert_reconciliation_row u body stripped
  response ← fetch_or_404 u body.id false
  write_activity_log u Resource.reconciliation body.id created none
      (some (Snapshot.reconciliation response))
  pure response

-- The dict of the fields that a PUT sent; the two dates may be sent as null.
pub record ReconciliationFields : Type 0 where
  pub name : Option Text
  pub date_start : Option (Option ℕ)
  pub date_end : Option (Option ℕ)
  pub beginning_balance_cents : Option ℤ
  pub ending_balance_cents : Option ℤ

abbrev pub has_no_fields : ReconciliationFields → Bool
has_no_fields f =
    is_none f.name
    && (is_none f.date_start
        && (is_none f.date_end
            && (is_none f.beginning_balance_cents && is_none f.ending_balance_cents)))

-- `_LOCKED_FIELDS_WHEN_COMPLETED & fields.keys()`
unfoldable pub locked_fields : ReconciliationFields → List (Field × Msg)
locked_fields f =
    flag (is_some f.beginning_balance_cents) beginning_balance_cents locked_while_completed
    ++ (flag (is_some f.ending_balance_cents) ending_balance_cents locked_while_completed
        ++ (flag (is_some f.date_start) date_start locked_while_completed
            ++ flag (is_some f.date_end) date_end locked_while_completed))

abbrev pub set_fields : ReconciliationFields → Reconciliation → Reconciliation
set_fields f r = record r {
  name = elim f.name [ none ↦ r.name | some t ↦ or_else (clean_name (some t)) [] ];
  date_start = or_else f.date_start r.date_start;
  date_end = or_else f.date_end r.date_end;
  beginning_balance_cents = or_else f.beginning_balance_cents r.beginning_balance_cents;
  ending_balance_cents = or_else f.ending_balance_cents r.ending_balance_cents;
}

abbrev log_updated : ℕ → ℕ → ReconciliationResponse → ReconciliationResponse → Exec Unit
log_updated u i before after =
    write_activity_log u Resource.reconciliation i updated (some (Snapshot.reconciliation before))
      (some (Snapshot.reconciliation after))

unfoldable pub apply_fields :
    ℕ → ℕ → ReconciliationFields → ReconciliationResponse → Exec ReconciliationResponse
apply_fields u i f before = do
  changed ← dynamic_update Tables.reconciliations (set_fields f) i u
  or_raise changed (not_found Resource.reconciliation)
  after ← fetch_or_404 u i false
  log_updated u i before after
  pure after

unfoldable pub update_fields : ℕ → ℕ → ReconciliationFields → Exec ReconciliationResponse
update_fields u i f = do
  for_some f.name (pure tt) (λ t. normalize_name t Field.name >> pure tt)
  before ← fetch_or_404 u i false
  raise_errors validation_failed (if is_completed before.row then locked_fields f else [])
  apply_fields u i f before

unfoldable pub update_reconciliation : ℕ → ℕ → ReconciliationFields → Exec ReconciliationResponse
update_reconciliation u i f =
    if has_no_fields f then fetch_or_404 u i false else update_fields u i f

abbrev pub same_status : ReconciliationStatus → ReconciliationStatus → Bool
same_status draft draft = true
same_status completed completed = true
same_status _ _ = false

abbrev pub with_status : ReconciliationStatus → ℕ → Reconciliation → Reconciliation
with_status s now r = Tables.reconciliations.touched now (record r { status = s })

-- The two UPDATEs of a flip: the status, and the version of every assigned transaction.
unfoldable pub flip_status :
    ℕ → ℕ → ReconciliationStatus → ReconciliationResponse → Exec ReconciliationResponse
flip_status u i target before = do
  modify (
      update_rows Tables.reconciliations (is_owned Tables.reconciliations i u) (with_status target))
  modify (update_rows Tables.transactions (is_assigned i u) Tables.transactions.touched)
  after ← fetch_or_404 u i false
  log_updated u i before after
  pure after

unfoldable pub transition_status : ℕ → ℕ → ReconciliationStatus → Bool → Exec ReconciliationResponse
transition_status u i target require_assigned = do
  before ← fetch_or_404 u i false
  if same_status before.row.status target then pure before else (do
    assigned ← gets (λ db. exists (is_assigned i u) db.transactions)
    raise_if (require_assigned && not assigned)
        (validation_error validation_failed ((transactions, at_least_one) ∷ []))
    flip_status u i target before)

unfoldable pub complete_reconciliation : ℕ → ℕ → Exec ReconciliationResponse
complete_reconciliation u i = transition_status u i completed true

unfoldable pub revert_reconciliation : ℕ → ℕ → Exec ReconciliationResponse
revert_reconciliation u i = transition_status u i draft false

-- SET reconciliation_id = NULL
abbrev pub unassigned : ℕ → Transaction → Transaction
unassigned now t = Tables.transactions.touched now (record t { reconciliation_id = none })

-- `_mutate_with_audit` for a reconciliation: the before-snapshot was read with its row, and the
-- after-snapshot is fetched again for its computed difference.
unfoldable pub mutate_refetched :
    ℕ
    → ℕ
    → ReconciliationResponse
    → Exec (Option Reconciliation)
    → ActivityAction
    → Bool
    → Exec ReconciliationResponse
mutate_refetched u i before mutate action gone = do
  changed ← mutate
  or_raise changed (conflict changed_concurrently)
  after ← fetch_or_404 u i gone
  write_activity_log u Resource.reconciliation i action (some (Snapshot.reconciliation before))
      (some (Snapshot.reconciliation after))
  pure after

unfoldable pub delete_reconciliation : ℕ → ℕ → Exec ReconciliationResponse
delete_reconciliation u i = do
  before ← fetch_or_404 u i false
  raise_if (is_completed before.row) (conflict delete_of_completed)
  modify (update_rows Tables.transactions (is_assigned i u) unassigned)
  mutate_refetched u i before (soft_delete Tables.reconciliations i u) deleted true

unfoldable pub restore_reconciliation : ℕ → ℕ → Exec ReconciliationResponse
restore_reconciliation u i = do
  before ← fetch_or_404 u i true
  mutate_refetched u i before (restore Tables.reconciliations i u) restored false
