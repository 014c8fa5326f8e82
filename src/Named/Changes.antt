-- ===== src/Named/Changes.antt =====
-- The writes of a named row under the unique indexes of sql/012 and sql/028.
use expense_world_engine.Base.{
  ℕ, ◌≡◌, refl, sym, subst, ◌∙◌, Bool, true, false, ◌||◌, Option, none, some, List, [], ◌∷◌, exists,
  ◌==◌, is_some, All, exists_false, arith,
}
use expense_world_engine.Base.Sums.{IsUnique, IsUnique-update_where}
use expense_world_engine.Schema.{Text, Db}
use expense_world_engine.Query.{is_owned, is_resolved, update_rows}
use expense_world_engine.Named.{Casing, NamedTable, holds_name}
use expense_world_engine.Named.Unique.{IsApart, IsApart-update_where}
use expense_world_engine.Named.Names.{
  Lawful, clash, clash_sym, HasUniqueNames, IsFree, Scoped, Scoped-eq, clash_of_free, clash_of_new,
  Renames,
}

module _ (c : Casing) {R : Type 0} (t : NamedTable R) (l : Lawful t) where
  open t use {table, name_of, currency_of}
  open l use {
    rows-with_rows, id-touched, owner-touched, name-touched, currency-touched, deleted-touched,
    id-with_deleted, owner-with_deleted, name-with_deleted, currency-with_deleted,
    deleted-with_deleted,
  }

  update-HasUniqueNames :
      (p : R → Bool) (f : ℕ → R → R) (taken : R → Bool) (i : ℕ) (Fits : R → Type 0) (db : Db)
      → ((x : R) → p x ≡ true → (table.id_of x == i) ≡ true)
      → ((x : R) → table.id_of (f db.now x) ≡ table.id_of x)
      → ((x y : R)
          → p x ≡ true
          → Fits x
          → (table.id_of y == i) ≡ false
          → (clash c t x y || taken y) ≡ false
          → clash c t (f db.now x) y ≡ false)
      → HasUniqueNames c t db
      → exists taken (table.rows db) ≡ false
      → All (λ x. p x ≡ true → Fits x) (table.rows db)
      → HasUniqueNames c t (update_rows table p f db)
  unfolding update_rows
  update-HasUniqueNames p f taken i Fits db by_key same guarded h free fits =
      subst (λ rs. IsUnique table.id_of rs × IsApart (clash c t) rs) (sym (rows-with_rows db _))
        (
          IsUnique-update_where table.id_of p (f db.now) (table.rows db) same h.0,
          IsApart-update_where (clash c t) (clash_sym c t) table.id_of p (f db.now) taken i by_key
              same Fits guarded (table.rows db) h.0 h.1 free fits,
        )

  -- A row that is deleted is in no index.
  clash_deleted : (x y : R) → is_some (table.deleted_of x) ≡ true → clash c t x y ≡ false
  clash_deleted x y d = ground (arith, d)

  clash-eq :
      (x' x y : R)
      → table.owner_of x' ≡ table.owner_of x
      → name_of x' ≡ name_of x
      → table.deleted_of x' ≡ table.deleted_of x
      → currency_of x' ≡ currency_of x
      → clash c t x y ≡ false
      → clash c t x' y ≡ false
  clash-eq x' x y o n d k e = rw (o, n, d, k) e

  nothing : (rs : List R) → exists (λ _. false) rs ≡ false
  unfolding exists
  nothing [] = refl
  nothing (r ∷ rs) = nothing rs

  unasked : (p : R → Bool) (rs : List R) → All {0, 0} (λ x. p x ≡ true → Unit) rs
  unasked p [] = tt
  unasked p (r ∷ rs) = (λ _. tt, unasked p rs)

  pub delete-HasUniqueNames :
      (u i : ℕ) (db : Db)
      → HasUniqueNames c t db
      → HasUniqueNames c t (
          update_rows table
            (is_owned table i u)
            (λ now r. table.touched now (table.with_deleted (some now) r))
            db)
  delete-HasUniqueNames u i db h =
      update-HasUniqueNames (is_owned table i u) _ (λ _. false) i (λ _. Unit) db
        (λ x k. ground (arith, k)) (λ x. id-touched db.now _ ∙ id-with_deleted _ x)
        (λ x y k _ n m. clash_deleted _ y (
          rw (deleted-touched db.now (table.with_deleted (some db.now) x))
            (rw (deleted-with_deleted (some db.now) x) refl)))
        h (nothing _) (unasked _ _)

  pub restore-HasUniqueNames :
      (u i : ℕ) (n : Text) (currency : Option Text) (db : Db)
      → HasUniqueNames c t db
      → IsFree c t u i currency (some n) db
      → All
          (λ x. is_resolved table i u true x ≡ true → (name_of x ≡ n) × Scoped c t currency x)
          (table.rows db)
      → HasUniqueNames c t (
          update_rows table
            (is_resolved table i u true)
            (λ now r. table.touched now (table.with_deleted none r))
            db)
  restore-HasUniqueNames u i n currency db h free fits =
      update-HasUniqueNames (is_resolved table i u true) _ (holds_name t c u n (some i) currency) i
        (λ x. (name_of x ≡ n) × Scoped c t currency x) db (λ x k. ground (arith, k))
        (λ x. id-touched db.now _ ∙ id-with_deleted none x)
        (λ x y k fit m e.
          clash_of_free c t _ y u i n currency
            (rw (owner-touched db.now (table.with_deleted none x), owner-with_deleted none x)
              (ground (arith, k)))
            (name-touched db.now _ ∙ (name-with_deleted none x ∙ fit.0))
            (Scoped-eq c t currency _ x (currency-touched db.now _ ∙ currency-with_deleted none x)
              fit.1)
            m (ground (arith, e)))
        h free fits

  -- An UPDATE of other columns, wherever it writes
  pub untouched-HasUniqueNames :
      (p : R → Bool) (f : ℕ → R → R) (i : ℕ) (db : Db)
      → ((x : R) → p x ≡ true → (table.id_of x == i) ≡ true)
      → Renames c t (f db.now) none
      → HasUniqueNames c t db
      → HasUniqueNames c t (update_rows table p f db)
  untouched-HasUniqueNames p f i db by_key s h =
      update-HasUniqueNames p f (λ _. false) i (λ _. Unit) db by_key s.id-set
        (λ x y k _ m e.
          clash-eq _ x y (s.owner-set x) (s.name-set x) (s.deleted-set x) (s.currency-set x)
            (ground (arith, e)))
        h (nothing _) (unasked _ _)

  pub edit-HasUniqueNames :
      (u i : ℕ) (currency o : Option Text) (set : R → R) (db : Db)
      → Renames c t set o
      → HasUniqueNames c t db
      → IsFree c t u i currency o db
      → All (λ x. is_resolved table i u false x ≡ true → Scoped c t currency x) (table.rows db)
      → HasUniqueNames c t
          (update_rows table (is_resolved table i u false) (λ now r. table.touched now (set r)) db)
  edit-HasUniqueNames u i currency none set db s h free fits =
      untouched-HasUniqueNames (is_resolved table i u false) _ i db (λ x k. ground (arith, k))
        (record {
          id-set = λ r. id-touched db.now _ ∙ s.id-set r;
          owner-set = λ r. owner-touched db.now _ ∙ s.owner-set r;
          deleted-set = λ r. deleted-touched db.now _ ∙ s.deleted-set r;
          currency-set = λ r. currency-touched db.now _ ∙ s.currency-set r;
          name-set = λ r. name-touched db.now _ ∙ s.name-set r;
        })
        h
  edit-HasUniqueNames u i currency (some n) set db s h free fits =
      update-HasUniqueNames (is_resolved table i u false) _ (holds_name t c u n (some i) currency) i
        (Scoped c t currency) db (λ x k. ground (arith, k)) (λ x. id-touched db.now _ ∙ s.id-set x)
        (λ x y k fit m e.
          clash_of_free c t _ y u i n currency
            (rw (owner-touched db.now (set x), s.owner-set x) (ground (arith, k)))
            (name-touched db.now _ ∙ s.name-set x)
            (Scoped-eq c t currency _ x (currency-touched db.now _ ∙ s.currency-set x) fit) m
            (ground (arith, e)))
        h free fits

  -- An INSERT past both checks
  pub insert-HasUniqueNames :
      (row : R) (u : ℕ) (n : Text) (currency : Option Text) (db : Db)
      → (table.owner_of row == u) ≡ true
      → name_of row ≡ n
      → Scoped c t currency row
      → HasUniqueNames c t db
      → exists (λ r. table.id_of r == table.id_of row) (table.rows db) ≡ false
      → exists (holds_name t c u n none currency) (table.rows db) ≡ false
      → HasUniqueNames c t (table.with_rows db (row ∷ table.rows db))
  insert-HasUniqueNames row u n currency db o e s h fresh free =
      subst (λ rs. IsUnique table.id_of rs × IsApart (clash c t) rs) (sym (rows-with_rows db _))
        (
          (fresh, h.0),
          (
            exists_false (holds_name t c u n none currency) (clash c t row) (table.rows db)
                (λ y k. clash_of_new c t row y u n currency o e s k) free,
            h.1,
          ),
        )
