-- ===== src/Named/Closed.antt =====
-- `_soft_delete_with_audit` of app/helpers/query_builder.py on a named row that was found: what the
-- guards before it established still holds, and the row is no longer active.
use expense_world_engine.Base.{
  ℕ, ◌≡◌, sym, subst, true, false, Option, some, List, find, exists, find_holds, arith,
}
use expense_world_engine.Base.Replace.{exists-update_all}
use expense_world_engine.Schema.{Db, LogEntry, Resource, Snapshot, ActivityAction}
use expense_world_engine.Exec.{Exec}
use expense_world_engine.Exec.Keeps.{Keeps, Keeps-modify, keeps_rules}
use expense_world_engine.Exec.Outcome.{Triple, Triple-bind, Triple-read, Triple-weaken}
use expense_world_engine.Query.{
  is_resolved, is_owned, update_rows, soft_delete, mutate_with_audit, soft_delete_with_audit,
  write_activity_log,
}
use expense_world_engine.Query.Found.{update_returning-Triple}
use expense_world_engine.Ledger.Balance.Effects.{Any}
use expense_world_engine.Named.{NamedTable}
use expense_world_engine.Named.Names.{Lawful}

module _ {R : Type 0} (t : NamedTable R) (l : Lawful t) (G : Db → Type 0)
    (on_rows : (db : Db) (rs : List R) → G db → G (t.table.with_rows db rs))
    (on_log : (db : Db) (es : List LogEntry) → G db → G (record db { activity_log = es }))
    (u i : ℕ) where
  open t use {table}

  abbrev pub Closed : Db → Type 0
  Closed db = G db × (exists (is_resolved table i u false) (table.rows db) ≡ false)

  log-Keeps :
      (noun : Resource) (j : ℕ) (action : ActivityAction) (b a : Option Snapshot)
      → Keeps Closed (write_activity_log u noun j action b a)
  unfolding write_activity_log
  log-Keeps noun j action b a = Keeps-modify _ λ db h. (
    on_log db _ h.0,
    subst (λ rs. exists (is_resolved table i u false) rs ≡ false) (sym (l.rows-logged db _)) h.1,
  )

  -- The UPDATE reaches every row with the id and the owner.
  close-Closed :
      (db : Db) (row : R)
      → G db
      → find (is_resolved table i u false) (table.rows db) ≡ some row
      → Closed (
          update_rows table
            (is_owned table (table.id_of row) u)
            (λ now r. table.touched now (table.with_deleted (some now) r))
            db)
  unfolding update_rows
  close-Closed db row g e = (
    on_rows db _ g,
    subst (λ rs. exists (is_resolved table i u false) rs ≡ false) (sym (l.rows-with_rows db _))
        (exists-update_all (is_resolved table i u false) (is_owned table (table.id_of row) u)
          (λ r. table.touched db.now (table.with_deleted (some db.now) r)) (table.rows db)
          (λ x k. ground (arith, k, same_id (find_holds _ (table.rows db) row e)))
          (λ x.
            rw (l.deleted-touched db.now (table.with_deleted (some db.now) x))
              (rw (l.deleted-with_deleted (some db.now) x) (ground arith)))),
  )
    where
      same_id : is_resolved table i u false row ≡ true → table.id_of row ≡ i
      same_id k = ground (arith, k)

  pub soft_delete_with_audit-Closed :
      (noun : Resource) (row : R) (serialize : R → Exec Snapshot)
      → ((Q : Db → Type 0) (r : R) → Keeps Q (serialize r))
      → Triple
          (λ db. G db × (find (is_resolved table i u false) (table.rows db) ≡ some row))
          (soft_delete_with_audit table u noun row serialize)
          (λ _. Closed)
          Any
  unfolding soft_delete_with_audit mutate_with_audit soft_delete
  soft_delete_with_audit-Closed noun row serialize ks =
      Triple-bind (Triple-read (λ _ _. tt) (ks _ row)) λ before.
        Triple-bind
          (Triple-weaken {E = Closed} (λ _ _. tt)
            (update_returning-Triple table _ _ λ db h. close-Closed db row h.0 h.1))
          λ changed. Triple-read (λ _ _. tt) (search (keeps_rules, ks, log-Keeps))
