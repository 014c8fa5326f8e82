-- ===== src/Categories/Names.antt =====
-- app/helpers/categories.py under the unique index of sql/012.
use expense_world_engine.Base.{ℕ, ◌≡◌, refl, ◌∙◌, Bool, Option, none, some, exists, ==_refl}
use expense_world_engine.Base.Int.{ℤ}
use expense_world_engine.Schema.{Text, Db, Category, Resource, Snapshot, ActivityAction}
use expense_world_engine.Query.{write_activity_log}
use expense_world_engine.Exec.{Field}
use expense_world_engine.Exec.Keeps.{Keeps, Keeps-if, Keeps-pure, keeps_rules}
use expense_world_engine.Exec.Outcome.{
  Triple, Triple-bind, Triple-read, Triple-gets, Triple-raise_if, Triple-modify, Triple-Keeps,
  Keeps-Triple,
}
use expense_world_engine.Named.{Casing, NamedFields, holds_name}
use expense_world_engine.Named
use expense_world_engine.Named.Names.{Lawful, HasUniqueNames}
use expense_world_engine.Named.Changes.{insert-HasUniqueNames}
use expense_world_engine.Named.Keeps.{
  normalize_name-Keeps, validate_color-Keeps, choose_sort_order-Keeps, checked-Triple, log-Keeps,
  update_named_resource-Keeps, soft_delete_with_audit-Keeps, restore_with_audit-Triple,
}
use expense_world_engine.Query.Owned.{fetch_owned_row_or_404-Keeps}
use expense_world_engine.Query.Found.{fetch_owned_row_or_404-Triple}
use expense_world_engine.Schema.Tables
use expense_world_engine.References.Writes.{reject_reserved_name-Keeps}
use expense_world_engine.Categories.{
  new_category, insert_category, set_category, snapshot, veto_reserved, create_category,
  update_category, delete_category, restore_category,
}

abbrev pub categories-Lawful : Lawful Named.categories
categories-Lawful = record {
  rows-with_rows = λ db l. refl;
  rows-logged = λ db l. refl;
  id-touched = λ now r. refl;
  owner-touched = λ now r. refl;
  name-touched = λ now r. refl;
  currency-touched = λ now r. refl;
  deleted-touched = λ now r. refl;
  id-with_deleted = λ d r. refl;
  owner-with_deleted = λ d r. refl;
  name-with_deleted = λ d r. refl;
  currency-with_deleted = λ d r. refl;
  deleted-with_deleted = λ d r. refl;
}

module _ (c : Casing) where
  abbrev P : Db → Type 0
  P = HasUniqueNames c Named.categories

  insert_category-Triple :
      (u i : ℕ) (n color : Text) (order : ℤ)
      → Triple
          (λ db.
            P db
            × (exists (holds_name Named.categories c u n none none) db.categories ≡ Bool.false))
          (insert_category u i n color order)
          (λ _. P)
          P
  unfolding insert_category
  insert_category-Triple u i n color order = Triple-bind (Triple-gets (λ _ h. h.0) _) λ taken.
      Triple-bind (Triple-gets (λ _ h. h.0.0) _) λ now.
        Triple-bind (Triple-raise_if (λ _ h. h.0.0.0) taken _) λ _.
          Triple-bind
            (Triple-modify _ λ db h.
              insert-HasUniqueNames c Named.categories categories-Lawful
                (new_category now u i n color none order) u n none db (==_refl u) refl tt h.0.0.0.0
                (h.0.0.1 ∙ h.1) h.0.0.0.1)
            λ _. Triple-Keeps (Keeps-pure _)

  log :
      (u i : ℕ) (action : ActivityAction) (b a : Option Snapshot)
      → Keeps P (write_activity_log u Resource.category i action b a)
  log u = log-Keeps c Named.categories categories-Lawful u Resource.category

  veto-Keeps : (Q : Db → Type 0) (r : Category) (n : Text) → Keeps Q (veto_reserved c r n)
  veto-Keeps Q r n = Keeps-if _ _ _ (reject_reserved_name-Keeps c n) (Keeps-pure tt)

  pub create_category-HasUniqueNames :
      (u i : ℕ) (n color : Text) (sort_order : Option ℤ)
      → Keeps P (create_category c u i n color sort_order)
  unfolding create_category
  create_category-HasUniqueNames u i n color sort_order = Keeps-Triple (
      Triple-bind (Triple-read (λ _ h. h) (normalize_name-Keeps n Field.name)) λ cleaned.
        Triple-bind (Triple-read (λ _ h. h) (reject_reserved_name-Keeps c cleaned)) λ _.
          Triple-bind (Triple-read (λ _ h. h) (validate_color-Keeps (some color))) λ _.
            checked-Triple c Named.categories (λ _ h. h) u cleaned none none
              (Triple-bind
                (Triple-read (λ _ h. h.0) (choose_sort_order-Keeps Named.categories u none _))
                λ order.
                  Triple-bind (insert_category-Triple u i cleaned color order)
                    λ row. Triple-Keeps (search (keeps_rules, log))))

  pub update_category-HasUniqueNames :
      (u i : ℕ) (fields : NamedFields) → Keeps P (update_category c u i fields)
  unfolding update_category
  update_category-HasUniqueNames u i fields =
      update_named_resource-Keeps c Named.categories categories-Lawful u Resource.category i fields
        set_category _ _
        (λ o. record {
          id-set = λ r. refl;
          owner-set = λ r. refl;
          deleted-set = λ r. refl;
          currency-set = λ r. refl;
          name-set = λ r. refl;
        })
        veto-Keeps

  pub delete_category-HasUniqueNames : (u i : ℕ) → Keeps P (delete_category u i)
  unfolding delete_category
  delete_category-HasUniqueNames u i =
      let removed = λ (row : Category).
        soft_delete_with_audit-Keeps c Named.categories categories-Lawful u Resource.category row _
          (λ r. Keeps-pure (snapshot r)) in
      search (keeps_rules, fetch_owned_row_or_404-Keeps, removed) depth 16

  pub restore_category-HasUniqueNames : (u i : ℕ) → Keeps P (restore_category c u i)
  unfolding restore_category
  restore_category-HasUniqueNames u i = Keeps-Triple (
      Triple-bind
        (fetch_owned_row_or_404-Triple Tables.categories (λ _ h. h) i u Resource.category _)
        λ row. Triple-bind (Triple-read (λ _ h. h.0) (veto-Keeps _ row row.name)) λ _.
          checked-Triple c Named.categories (λ _ h. h.0) u row.name (some i) none
            (restore_with_audit-Triple c Named.categories categories-Lawful u i none
              Resource.category row _ (λ Q r. Keeps-pure _) tt))
