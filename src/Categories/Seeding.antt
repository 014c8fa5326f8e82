-- ===== src/Categories/Seeding.antt =====
-- `ensure_system_category` of app/helpers/categories.py under the unique index of sql/012.
use expense_world_engine.Base.{
  ◌∷◌, ℕ, ◌≡◌, refl, ◌∙◌, Bool, false, none, some, exists, exists_false, ◌==◌, ==_refl, arith,
}
use expense_world_engine.Base.Int.{pos}
use expense_world_engine.Schema.{Db, Category, SystemCategoryKey}
use expense_world_engine.Exec.Keeps.{Keeps, Keeps-pure, keeps_rules}
use expense_world_engine.Exec.Outcome.{
  Triple-bind, Triple-gets, Triple-raise_if, Triple-modify, Triple-if, Triple-pre, Triple-Keeps,
  Keeps-Triple,
}
use expense_world_engine.Named.{Casing, holds_name}
use expense_world_engine.Named
use expense_world_engine.Named.Names.{HasUniqueNames}
use expense_world_engine.Named.Changes.{insert-HasUniqueNames}
use expense_world_engine.Categories.{
  default_name, default_color, new_category, violates_unique, seed_category, fetch_system_category,
  reread_seeded, seed_or_reread, ensure_system_category,
}
use expense_world_engine.Categories.Names.{categories-Lawful}

module _ (c : Casing) where
  abbrev P : Db → Type 0
  P = HasUniqueNames c Named.categories

  seeded-HasUniqueNames :
      (now u i : ℕ) (key : SystemCategoryKey) (db : Db)
      → P db
      → exists (violates_unique c u i (default_name key)) db.categories ≡ false
      → P (record db {
        categories =
            new_category now u i (default_name key) default_color (some key) (pos 0)
            ∷ db.categories;
      })
  seeded-HasUniqueNames now u i key db h free =
      insert-HasUniqueNames c Named.categories categories-Lawful
        (new_category now u i (default_name key) default_color (some key) (pos 0)) u
        (default_name key) none db (==_refl u) refl tt h
        (exists_false violates (λ r. r.id == i) db.categories (λ r k. ground (arith, k)) free)
        (exists_false violates (holds_name Named.categories c u (default_name key) none none)
          db.categories (λ r k. ground (arith, k)) free)
    where
      violates : Category → Bool
      violates = violates_unique c u i (default_name key)

  seed_category-HasUniqueNames :
      (u : ℕ) (key : SystemCategoryKey) (i : ℕ) → Keeps P (seed_category c u key i)
  unfolding seed_category
  seed_category-HasUniqueNames u key i = Keeps-Triple (
      Triple-bind (Triple-gets (λ _ h. h) _) λ seeded.
        Triple-bind (Triple-gets (λ _ h. h.0) _) λ squatted.
          Triple-bind (Triple-gets (λ _ h. h.0.0) _) λ now.
            Triple-if seeded (Triple-pre (λ _ h. h.0.0.0) (Triple-Keeps (Keeps-pure none))) (
              Triple-bind (Triple-raise_if (λ _ h. h.0.0.0) squatted _) λ _.
                Triple-bind
                  (Triple-modify _
                    λ db h. seeded-HasUniqueNames now u i key db h.0.0.0.0 (h.0.0.1 ∙ h.1))
                  λ _. Triple-Keeps (Keeps-pure _)))

  pub ensure_system_category-HasUniqueNames :
      (u : ℕ) (key : SystemCategoryKey) (i : ℕ) → Keeps P (ensure_system_category c u key i)
  unfolding ensure_system_category fetch_system_category seed_or_reread reread_seeded
  ensure_system_category-HasUniqueNames u key i =
      search (keeps_rules, seed_category-HasUniqueNames) depth 12
