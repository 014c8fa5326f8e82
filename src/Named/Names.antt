-- ===== src/Named/Names.antt =====
-- The partial unique indexes of sql/012 and sql/028, under the guarded writes of
-- app/helpers/reference_data.py and of its callers.
use expense_world_engine.Base.{
  ℕ, ◌≡◌, refl, ◌∙◌, Bool, true, false, ◌&&◌, Option, none, some, List, [], ◌∷◌, exists, ◌==◌,
  is_none, or_else, arith,
}
use expense_world_engine.Base.Sums.{IsUnique}
use expense_world_engine.Schema.{Text, Db, LogEntry}
use expense_world_engine.Text.{same_text}
use expense_world_engine.Named.{Casing, NamedTable, holds_name}
use expense_world_engine.Named.Unique.{IsApart}

-- What the proofs need of a table: its columns are columns.
pub record Lawful {R : Type 0} (t : NamedTable R) : Type 0 where
  pub rows-with_rows : (db : Db) (l : List R) → t.table.rows (t.table.with_rows db l) ≡ l
  pub rows-logged :
      (db : Db) (l : List LogEntry)
      → t.table.rows (record db { activity_log = l }) ≡ t.table.rows db
  pub id-touched : (now : ℕ) (r : R) → t.table.id_of (t.table.touched now r) ≡ t.table.id_of r
  pub owner-touched :
      (now : ℕ) (r : R) → t.table.owner_of (t.table.touched now r) ≡ t.table.owner_of r
  pub name-touched : (now : ℕ) (r : R) → t.name_of (t.table.touched now r) ≡ t.name_of r
  pub currency-touched : (now : ℕ) (r : R) → t.currency_of (t.table.touched now r) ≡ t.currency_of r
  pub deleted-touched :
      (now : ℕ) (r : R) → t.table.deleted_of (t.table.touched now r) ≡ t.table.deleted_of r
  pub id-with_deleted :
      (d : Option ℕ) (r : R) → t.table.id_of (t.table.with_deleted d r) ≡ t.table.id_of r
  pub owner-with_deleted :
      (d : Option ℕ) (r : R) → t.table.owner_of (t.table.with_deleted d r) ≡ t.table.owner_of r
  pub name-with_deleted :
      (d : Option ℕ) (r : R) → t.name_of (t.table.with_deleted d r) ≡ t.name_of r
  pub currency-with_deleted :
      (d : Option ℕ) (r : R) → t.currency_of (t.table.with_deleted d r) ≡ t.currency_of r
  pub deleted-with_deleted :
      (d : Option ℕ) (r : R) → t.table.deleted_of (t.table.with_deleted d r) ≡ d

same_text_sym : (t u : Text) → same_text t u ≡ same_text u t
unfolding same_text
same_text_sym [] [] = refl
same_text_sym [] (d ∷ u) = refl
same_text_sym (c ∷ t) [] = refl
same_text_sym (c ∷ t) (d ∷ u) = ground (arith, same_text_sym t u)

module _ (c : Casing) {R : Type 0} (t : NamedTable R) where
  open c use {sql_lower}
  open t use {table, name_of, currency_of}

  -- The unique index would refuse the two rows together.
  abbrev pub clash : R → R → Bool
  clash x y =
      (table.owner_of x == table.owner_of y
        && same_text (sql_lower (name_of x)) (sql_lower (name_of y)))
      && ((is_none (table.deleted_of x) && is_none (table.deleted_of y))
          && same_text (currency_of x) (currency_of y))

  pub clash_sym : (x y : R) → clash x y ≡ clash y x
  clash_sym x y = ground (
    arith,
    same_text_sym (sql_lower (name_of x)) (sql_lower (name_of y)),
    same_text_sym (currency_of x) (currency_of y),
  )

  -- The primary key, and no two active rows of a user under one folded name (and currency).
  abbrev pub HasUniqueNames : Db → Type 0
  HasUniqueNames db = IsUnique table.id_of (table.rows db) × IsApart clash (table.rows db)

  -- `name_taken` answered no.
  abbrev pub IsFree : ℕ → ℕ → Option Text → Option Text → Db → Type 0
  IsFree u i currency none db = Unit
  IsFree u i currency (some n) db =
      exists (holds_name t c u n (some i) currency) (table.rows db) ≡ false

  -- The condition that the caller passed is the row's own currency.
  abbrev pub Scoped : Option Text → R → Type 0
  Scoped none r = Unit
  Scoped (some k) r = currency_of r ≡ k

  pub Scoped-eq :
      (currency : Option Text) (x y : R)
      → currency_of x ≡ currency_of y
      → Scoped currency y
      → Scoped currency x
  Scoped-eq none x y e s = tt
  Scoped-eq (some k) x y e s = e ∙ s

  pub clash_of_free :
      (x y : R) (u i : ℕ) (n : Text) (currency : Option Text)
      → (table.owner_of x == u) ≡ true
      → name_of x ≡ n
      → Scoped currency x
      → (table.id_of y == i) ≡ false
      → holds_name t c u n (some i) currency y ≡ false
      → clash x y ≡ false
  clash_of_free x y u i n none o e s k h =
      rw e (ground (arith, o, k, h, same_text_sym (sql_lower n) (sql_lower (name_of y))))
  clash_of_free x y u i n (some code) o e s k h =
      rw (e, s)
        (ground (
          arith,
          o,
          k,
          h,
          same_text_sym (sql_lower n) (sql_lower (name_of y)),
          same_text_sym code (currency_of y),
        ))

  -- A new row is not excluded by its id.
  pub clash_of_new :
      (x y : R) (u : ℕ) (n : Text) (currency : Option Text)
      → (table.owner_of x == u) ≡ true
      → name_of x ≡ n
      → Scoped currency x
      → clash x y ≡ true
      → holds_name t c u n none currency y ≡ true
  clash_of_new x y u n none o e s h =
      let k = rw e at h in ground (arith, o, k, same_text_sym (sql_lower n) (sql_lower (name_of y)))
  clash_of_new x y u n (some code) o e s h =
      let k = rw (e, s) at h in
      ground (
        arith,
        o,
        k,
        same_text_sym (sql_lower n) (sql_lower (name_of y)),
        same_text_sym code (currency_of y),
      )

  -- What a SET list of a rename does to the columns that the index reads.
  pub record Renames (set : R → R) (o : Option Text) : Type 0 where
    pub id-set : (r : R) → table.id_of (set r) ≡ table.id_of r
    pub owner-set : (r : R) → table.owner_of (set r) ≡ table.owner_of r
    pub deleted-set : (r : R) → table.deleted_of (set r) ≡ table.deleted_of r
    pub currency-set : (r : R) → currency_of (set r) ≡ currency_of r
    pub name-set : (r : R) → name_of (set r) ≡ or_else o (name_of r)
