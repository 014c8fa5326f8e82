-- ===== src/Ledger/Remove.antt =====
-- `delete_transaction` and `restore_transaction`.
use expense_world_engine.Base.{
  ℕ, Bool, true, false, Option, none, some, List, [], ◌∷◌, ◌++◌, is_none, is_some, if◌then◌else◌,
}
use expense_world_engine.Schema.{
  Transaction, Reconciliation, TransactionResponse, deleted, restored, ledger, Resource, Snapshot,
}
use expense_world_engine.Schema.Tables
use expense_world_engine.Exec.{
  Exec, account_id, category_id, active_account, active_category, delete_of_completed,
  prerequisites_failed, conflict, internal_error, pure, raise_if, raise_errors, or_raise, for_some,
  ◌>>=◌, ◌>>◌,
}
use expense_world_engine.Query.{
  fetch_owned_row_or_404, is_owned, update_returning, soft_delete, write_activity_log,
}
use expense_world_engine.Validation.{flag, active_account_row, active_category_row}
use expense_world_engine.Links.{cascade_delete, cascade_restore}
use expense_world_engine.Ledger.Rows.{is_completed, fetch_recon_status, attach_hashtag_ids}
use expense_world_engine.Ledger.Edit.{is_locking}

-- The completed-reconciliation guard, before any mutation.
unfoldable pub check_delete_lock : ℕ → Transaction → Exec Unit
check_delete_lock u row = for_some row.reconciliation_id (pure tt) λ rid. do
  recon ← fetch_recon_status u rid
  raise_if (is_locking recon) (conflict delete_of_completed)

-- The row was just found, so the UPDATE returns it; a serializer given no row is an error of the
-- server.
unfoldable pub close_transaction : ℕ → ℕ → Transaction → Exec TransactionResponse
close_transaction u i row = do
  before ← attach_hashtag_ids row ledger
  changed ← soft_delete Tables.transactions i u
  after_row ← or_raise changed internal_error
  cascade_delete u i ledger []
  after ← attach_hashtag_ids after_row ledger
  write_activity_log u Resource.transaction i deleted (some (Snapshot.transaction before))
      (some (Snapshot.transaction after))
  pure after

unfoldable pub delete_transaction : ℕ → ℕ → Exec TransactionResponse
delete_transaction u i = do
  row ← fetch_owned_row_or_404 Tables.transactions i u Resource.transaction false
  check_delete_lock u row
  close_transaction u i row

-- The two warnings of a restore.
pub data Warning : Type 0 where
  reconciliation_missing reconciliation_completed : Warning

-- The link is kept only to an active draft.
abbrev pub unlink_reason : Option Reconciliation → Option Warning
unlink_reason none = some reconciliation_missing
unlink_reason (some r) =
    if is_some r.deleted_at
    then some reconciliation_missing
    else if is_completed r
    then some reconciliation_completed
    else none

unfoldable pub resolve_reconciliation : ℕ → Transaction → Exec (Option Warning)
resolve_reconciliation u row =
    for_some row.reconciliation_id (pure none)
      λ rid. do recon ← fetch_recon_status u rid; pure (unlink_reason recon)

abbrev pub reopen : Bool → ℕ → Transaction → Transaction
reopen unlink now r = Tables.transactions.touched now (record r {
  deleted_at = none;
  reconciliation_id = if unlink then none else r.reconciliation_id;
})

unfoldable pub check_prerequisites : ℕ → Transaction → Exec Unit
check_prerequisites u row = do
  account ← active_account_row row.account_id u
  category ← active_category_row row.category_id u
  raise_errors prerequisites_failed (
      flag (is_none account) account_id active_account
      ++ flag (is_none category) category_id active_category)

-- The row came soft-deleted, so its marker is there.
unfoldable pub reopen_transaction : ℕ → ℕ → Transaction → Bool → Exec TransactionResponse
reopen_transaction u i row unlink = do
  before ← attach_hashtag_ids row ledger
  changed ← update_returning Tables.transactions (is_owned Tables.transactions i u) (reopen unlink)
  after_row ← or_raise changed internal_error
  for_some row.deleted_at (pure tt) (cascade_restore u i ledger)
  after ← attach_hashtag_ids after_row ledger
  write_activity_log u Resource.transaction i restored (some (Snapshot.transaction before))
      (some (Snapshot.transaction after))
  pure after

unfoldable pub restore_transaction : ℕ → ℕ → Exec (TransactionResponse × List Warning)
restore_transaction u i = do
  row ← fetch_owned_row_or_404 Tables.transactions i u Resource.transaction true
  check_prerequisites u row
  warning ← resolve_reconciliation u row
  after ← reopen_transaction u i row (is_some warning)
  pure (after, elim warning [ none ↦ [] | some w ↦ w ∷ [] ])
