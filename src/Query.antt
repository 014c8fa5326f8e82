-- ===== src/Query.antt =====
-- app/helpers/query_builder.py and app/helpers/activity_log.py: the generic reads and writes of an
-- owned, soft-deletable row, under the tenant predicate `id = $1 AND user_id = $2`. The row locks
-- of FOR UPDATE are not modelled: one database transaction runs at a time.
pub mod Owned
pub mod Found
use expense_world_engine.Base.{
  ℕ, ◌≡◌, Bool, true, false, ◌&&◌, Option, none, some, List, ◌∷◌, find, update_where, exists, ◌==◌,
  is_some, is_none, if◌then◌else◌,
}
use expense_world_engine.Schema.{
  Db, LogEntry, Resource, Snapshot, ActivityAction, deleted, restored,
}
use expense_world_engine.Schema.Tables.{Table}
use expense_world_engine.Exec.{
  Exec, pure, raise, gets, modify, or_raise, ◌>>=◌, ◌>>◌, not_found, conflict, changed_concurrently,
}

module _ {R : Type 0} (t : Table R) where
  -- WHERE id = $1 AND user_id = $2
  abbrev pub is_owned : ℕ → ℕ → R → Bool
  is_owned i u r = t.id_of r == i && t.owner_of r == u

  -- … AND deleted_at IS NULL, or IS NOT NULL
  abbrev pub is_resolved : ℕ → ℕ → Bool → R → Bool
  is_resolved i u gone r =
      is_owned i u r && (if gone then is_some (t.deleted_of r) else is_none (t.deleted_of r))

  unfoldable pub fetch_owned_row : ℕ → ℕ → Bool → Exec (Option R)
  fetch_owned_row i u gone = gets (λ db. find (is_resolved i u gone) (t.rows db))

  unfoldable pub fetch_owned_row_or_404 : ℕ → ℕ → Resource → Bool → Exec R
  fetch_owned_row_or_404 i u noun gone = do
    row ← fetch_owned_row i u gone
    or_raise row (not_found noun)

  -- UPDATE … SET … WHERE, on every row that matches
  unfoldable pub update_rows : (R → Bool) → (ℕ → R → R) → Db → Db
  update_rows p f db = t.with_rows db (update_where p (f db.now) (t.rows db))

  -- RETURNING *: the first updated row
  unfoldable pub update_returning : (R → Bool) → (ℕ → R → R) → Exec (Option R)
  update_returning p f = do
    before ← gets (λ db. find p (t.rows db))
    now ← gets (λ db. db.now)
    modify (update_rows p f)
    pure (elim before [ none ↦ none | some r ↦ some (f now r) ])

  -- The SET list of the fields is `set`; the bump of `updated_at` and `version` is appended.
  unfoldable pub dynamic_update : (R → R) → ℕ → ℕ → Exec (Option R)
  dynamic_update set i u = update_returning (is_resolved i u false) (λ now r. t.touched now (set r))

  unfoldable pub soft_delete : ℕ → ℕ → Exec (Option R)
  soft_delete i u =
      update_returning (is_owned i u) (λ now r. t.touched now (t.with_deleted (some now) r))

  unfoldable pub restore : ℕ → ℕ → Exec (Option R)
  restore i u =
      update_returning (is_resolved i u true) (λ now r. t.touched now (t.with_deleted none r))

unfoldable pub write_activity_log :
    ℕ → Resource → ℕ → ActivityAction → Option Snapshot → Option Snapshot → Exec Unit
write_activity_log u noun i action before after = modify λ db. record db {
  activity_log =
      record {
        user_id = u;
        resource_type = noun;
        resource_id = i;
        action = action;
        before_snapshot = before;
        after_snapshot = after;
        changed_by = u;
        created_at = db.now;
      }
      ∷ db.activity_log;
}

module _ {R : Type 0} (t : Table R) where
  -- `serialize` is a read: it may compute columns from the database.
  unfoldable pub mutate_with_audit :
      ℕ → Resource → R → (R → Exec Snapshot) → Exec (Option R) → ActivityAction → Exec Snapshot
  mutate_with_audit u noun row serialize mutate action = do
    before ← serialize row
    changed ← mutate
    after_row ← or_raise changed (conflict changed_concurrently)
    after ← serialize after_row
    write_activity_log u noun (t.id_of row) action (some before) (some after)
    pure after

  unfoldable pub soft_delete_with_audit : ℕ → Resource → R → (R → Exec Snapshot) → Exec Snapshot
  soft_delete_with_audit u noun row serialize =
      mutate_with_audit u noun row serialize (soft_delete t (t.id_of row) u) deleted

  unfoldable pub restore_with_audit : ℕ → Resource → R → (R → Exec Snapshot) → Exec Snapshot
  restore_with_audit u noun row serialize =
      mutate_with_audit u noun row serialize (restore t (t.id_of row) u) restored
