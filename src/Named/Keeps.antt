-- ===== src/Named/Keeps.antt =====
-- The service functions of app/helpers/reference_data.py, and the guarded writes of its callers,
-- under the unique indexes.
use expense_world_engine.Base.{
  ℕ, ◌≡◌, sym, subst, Bool, true, false, Option, none, some, List, find, exists, All, ◌∙◌,
  find_holds, refl, arith,
}
use expense_world_engine.Base.Replace.{All-unique}
use expense_world_engine.Base.Sums.{IsUnique}
use expense_world_engine.Base.Int.{ℤ}
use expense_world_engine.Schema.{Text, Db, Resource, Snapshot, ActivityAction}
use expense_world_engine.Exec.{Exec, Field, raise_if, conflict, name_exists, ◌>>=◌, ◌>>◌}
use expense_world_engine.Exec.Keeps.{Keeps, Keeps-if, Keeps-bind, Keeps-modify, keeps_rules}
use expense_world_engine.Exec.Outcome.{
  Triple, Triple-bind, Triple-read, Triple-gets, Triple-raise_if, Triple-pure, Triple-post,
  Triple-pre, Triple-Keeps, Keeps-Triple,
}
use expense_world_engine.Validation.{normalize_name, validate_color}
use expense_world_engine.Query.{
  is_resolved, update_rows, dynamic_update, soft_delete, restore, write_activity_log,
  soft_delete_with_audit, restore_with_audit, mutate_with_audit,
}
use expense_world_engine.Query.Owned.{fetch_owned_row_or_404-Keeps, update_returning-Keeps}
use expense_world_engine.Query.Found.{fetch_owned_row_or_404-Triple, update_returning-Triple}
use expense_world_engine.Named.{
  Casing, NamedTable, NamedFields, is_empty, name_taken, holds_name, check_rename, check_int4,
  next_sort_order, choose_sort_order, update_nonempty, update_named_resource,
}
use expense_world_engine.Named.Names.{Lawful, HasUniqueNames, IsFree, Scoped, Renames, clash}
use expense_world_engine.Named.Unique.{IsApart}
use expense_world_engine.Named.Changes.{
  delete-HasUniqueNames, restore-HasUniqueNames, edit-HasUniqueNames,
}

-- What only reads keeps every predicate.
module _ {P : Db → Type 0} where
  pub normalize_name-Keeps : (n : Text) (f : Field) → Keeps P (normalize_name n f)
  unfolding normalize_name
  normalize_name-Keeps n f = search keeps_rules

  pub validate_color-Keeps : (o : Option Text) → Keeps P (validate_color o)
  unfolding validate_color
  validate_color-Keeps none = search keeps_rules
  validate_color-Keeps (some t) = search keeps_rules

  pub check_int4-Keeps : (o : Option ℤ) → Keeps P (check_int4 o)
  unfolding check_int4
  check_int4-Keeps none = search keeps_rules
  check_int4-Keeps (some n) = search keeps_rules

  pub choose_sort_order-Keeps :
      {R : Type 0} (t : NamedTable R) (u : ℕ) (scope : Option (R → Bool)) (sent : Option ℤ)
      → Keeps P (choose_sort_order t u scope sent)
  unfolding choose_sort_order next_sort_order
  choose_sort_order-Keeps t u scope sent = search (keeps_rules, check_int4-Keeps) depth 12

module _ (c : Casing) {R : Type 0} (t : NamedTable R) where
  open t use {table, name_of, sort_order_of, currency_of}

  module _ {P E : Db → Type 0} (safe : (db : Db) → P db → E db) where
    -- Past the check, the name is free.
    pub checked-Triple :
        {A : Type 0} {Q : A → Db → Type 0} {m : Exec A} (u : ℕ) (n : Text) (exclude : Option ℕ)
        (currency : Option Text)
        → Triple
            (λ db. P db × (exists (holds_name t c u n exclude currency) (table.rows db) ≡ false))
            m
            Q
            E
        → Triple P
            (name_taken t c u n exclude currency >>= λ taken.
              raise_if taken (conflict name_exists) >> m)
            Q
            E
    unfolding name_taken
    checked-Triple u n exclude currency k = Triple-bind (Triple-gets safe _) λ taken.
        Triple-bind (Triple-raise_if (λ db h. safe db h.0) taken (conflict name_exists))
          λ _. Triple-pre (λ db h. (h.0.0, h.0.1 ∙ h.1)) k

    pub check_rename-Triple :
        (u i : ℕ) (currency : Option Text) (row : R) (o : Option Text) (veto : R → Text → Exec Unit)
        → ((r : R) (n : Text) → Keeps P (veto r n))
        → Triple P
            (check_rename c t u i currency row o veto)
            (λ renamed db. P db × IsFree c t u i currency renamed db)
            E
    unfolding check_rename
    check_rename-Triple u i currency row none veto kv =
        Triple-post (λ o db h. (h.0, subst (λ r. IsFree c t u i currency r db) (sym h.1) tt))
          (Triple-pure safe none)
    check_rename-Triple u i currency row (some n) veto kv =
        Triple-bind (Triple-read safe (normalize_name-Keeps n Field.name)) λ cleaned.
          Triple-bind (Triple-read safe (kv row cleaned)) λ _.
            checked-Triple u cleaned (some i) currency (
              Triple-post
                (λ o db h. (h.0.0, subst (λ r. IsFree c t u i currency r db) (sym h.1) h.0.1))
                (Triple-pure (λ db h. safe db h.0) (some cleaned)))

  module _ (l : Lawful t) where
    abbrev P : Db → Type 0
    P = HasUniqueNames c t

    -- What holds of the row that was found holds of every row that its update touches.
    found_fits :
        (i u : ℕ) (gone : Bool) (Fits : R → Type 0) (row : R) (rs : List R)
        → IsUnique table.id_of rs
        → find (is_resolved table i u gone) rs ≡ some row
        → Fits row
        → All (λ x. is_resolved table i u gone x ≡ true → Fits x) rs
    found_fits i u gone Fits row rs unique e fit =
        All-unique (λ x. is_resolved table i u gone x ≡ true → Fits x) table.id_of
          (is_resolved table i u gone) i rs row (λ x h. ground (arith, h)) unique e (λ _. fit)
          (λ x n h. absurd (ground (arith, n, h)))

    pub log-Keeps :
        (u : ℕ) (noun : Resource) (i : ℕ) (action : ActivityAction) (b a : Option Snapshot)
        → Keeps P (write_activity_log u noun i action b a)
    unfolding write_activity_log
    log-Keeps u noun i action b a = Keeps-modify _ λ db h.
        subst (λ rs. IsUnique table.id_of rs × IsApart (clash c t) rs) (sym (l.rows-logged db _)) h

    pub edit-Triple :
        (u i : ℕ) (currency o : Option Text) (set : R → R) (row : R)
        → Renames c t set o
        → Scoped c t currency row
        → Triple
            (λ db.
              (P db × (find (is_resolved table i u false) (table.rows db) ≡ some row))
              × IsFree c t u i currency o db)
            (dynamic_update table set i u)
            (λ _. P)
            P
    unfolding dynamic_update
    edit-Triple u i currency o set row s scoped = update_returning-Triple table _ _ λ db h.
        edit-HasUniqueNames c t l u i currency o set db s h.0.0 h.1
          (found_fits i u false (Scoped c t currency) row (table.rows db) h.0.0.0 h.0.1 scoped)

    update_nonempty-Keeps :
        (u : ℕ) (noun : Resource) (i : ℕ) (fields : NamedFields) (set : NamedFields → R → R)
        (serialize : R → Snapshot) (veto : R → Text → Exec Unit)
        → ((o : Option Text) → Renames c t (set (record fields { name = o })) o)
        → ((Q : Db → Type 0) (r : R) (n : Text) → Keeps Q (veto r n))
        → Keeps P (update_nonempty c t u noun i fields set serialize veto)
    unfolding update_nonempty
    update_nonempty-Keeps u noun i fields set serialize veto renames kv = Keeps-Triple (
        Triple-bind (fetch_owned_row_or_404-Triple table (λ _ h. h) i u noun false) λ row.
          Triple-bind (Triple-read (λ _ h. h.0) (validate_color-Keeps fields.color)) λ _.
            Triple-bind (check_rename-Triple (λ _ h. h.0) u i none row fields.name veto (kv _))
              λ renamed.
                Triple-bind (Triple-read (λ _ h. h.0.0) (check_int4-Keeps fields.sort_order)) λ _.
                  Triple-bind (edit-Triple u i none renamed _ row (renames renamed) tt)
                    λ changed. Triple-Keeps (search (keeps_rules, log-Keeps)))

    pub update_named_resource-Keeps :
        (u : ℕ) (noun : Resource) (i : ℕ) (fields : NamedFields) (set : NamedFields → R → R)
        (serialize : R → Snapshot) (veto : R → Text → Exec Unit)
        → ((o : Option Text) → Renames c t (set (record fields { name = o })) o)
        → ((Q : Db → Type 0) (r : R) (n : Text) → Keeps Q (veto r n))
        → Keeps P (update_named_resource c t u noun i fields set serialize veto)
    unfolding update_named_resource
    update_named_resource-Keeps u noun i fields set serialize veto renames kv =
        Keeps-if (is_empty fields) _ _ (search (keeps_rules, fetch_owned_row_or_404-Keeps))
          (update_nonempty-Keeps u noun i fields set serialize veto renames kv)

    pub soft_delete_with_audit-Keeps :
        (u : ℕ) (noun : Resource) (row : R) (serialize : R → Exec Snapshot)
        → ((r : R) → Keeps P (serialize r))
        → Keeps P (soft_delete_with_audit table u noun row serialize)
    unfolding soft_delete_with_audit mutate_with_audit soft_delete
    soft_delete_with_audit-Keeps u noun row serialize ks = Keeps-bind _ _ (ks row) λ before.
        Keeps-bind _ _
          (update_returning-Keeps table _ _
            (Keeps-modify _ (delete-HasUniqueNames c t l u (table.id_of row))))
          λ changed. search (keeps_rules, ks, log-Keeps)

    -- The audited restore of a found row whose name is free.
    pub restore_with_audit-Triple :
        (u i : ℕ) (currency : Option Text) (noun : Resource) (row : R)
        (serialize : R → Exec Snapshot)
        → ((Q : Db → Type 0) (r : R) → Keeps Q (serialize r))
        → Scoped c t currency row
        → Triple
            (λ db.
              (P db × (find (is_resolved table i u true) (table.rows db) ≡ some row))
              × (exists (holds_name t c u (name_of row) (some i) currency) (table.rows db) ≡ false))
            (restore_with_audit table u noun row serialize)
            (λ _. P)
            P
    unfolding restore_with_audit mutate_with_audit restore
    restore_with_audit-Triple u i currency noun row serialize ks scoped =
        Triple-bind (Triple-read (λ _ h. h.0.0) (ks _ row)) λ before.
          Triple-bind (update_returning-Triple table _ _ λ db h. restored db h)
            λ changed. Triple-Keeps (search (keeps_rules, ks, log-Keeps))
      where
        id_of_found :
            (db : Db)
            → find (is_resolved table i u true) (table.rows db) ≡ some row
            → table.id_of row ≡ i
        id_of_found db e = ground (arith, find_holds (is_resolved table i u true) _ row e)

        restored :
            (db : Db)
            → (P db × (find (is_resolved table i u true) (table.rows db) ≡ some row))
              × (exists (holds_name t c u (name_of row) (some i) currency) (table.rows db) ≡ false)
            → P (
                update_rows table
                  (is_resolved table (table.id_of row) u true)
                  (λ now r. table.touched now (table.with_deleted none r))
                  db)
        restored db h =
            subst
              (λ k. P (
                update_rows table (is_resolved table k u true)
                  (λ now r. table.touched now (table.with_deleted none r)) db))
              (sym (id_of_found db h.0.1))
              (restore-HasUniqueNames c t l u i (name_of row) currency db h.0.0 h.1 (
                found_fits i u true (λ x. (name_of x ≡ name_of row) × Scoped c t currency x) row
                  (table.rows db) h.0.0.0 h.0.1 (refl, scoped)))
