-- ===== src/Categories/Guards.antt =====
-- `delete_category` of app/helpers/categories.py: its guards and what they protect.
use expense_world_engine.Base.{ℕ, ◌≡◌, refl, ◌∙◌, subst, false, some, find, exists, is_some}
use expense_world_engine.Schema.{Db, Category, Resource, Snapshot}
use expense_world_engine.Schema.Tables
use expense_world_engine.Exec.{ok, pure}
use expense_world_engine.Exec.Keeps.{Keeps-pure}
use expense_world_engine.Exec.Outcome.{
  Triple, Triple-bind, Triple-gets, Triple-raise_if, Triple-post, Triple-pre, Triple-result,
}
use expense_world_engine.Query.{is_resolved}
use expense_world_engine.Query.Found.{fetch_owned_row_or_404-Triple}
use expense_world_engine.Ledger.Balance.Effects.{Any}
use expense_world_engine.Named
use expense_world_engine.Named.Closed.{soft_delete_with_audit-Closed}
use expense_world_engine.Categories.{transaction_refers, draft_refers, snapshot, delete_category}
use expense_world_engine.Categories.Names.{categories-Lawful}

-- The category is deleted, was no system category, and no active row of the user names it.
pub record Unreferenced (u i : ℕ) (row : Category) (db after : Db) : Type 0 where
  pub was_found : find (is_resolved Tables.categories i u false) db.categories ≡ some row
  pub was_no_system : is_some row.system_key ≡ false
  pub no_transaction : exists (transaction_refers u i) after.transactions ≡ false
  pub no_draft : exists (draft_refers u i) after.inbox ≡ false
  pub closed : exists (is_resolved Tables.categories i u false) after.categories ≡ false

module _ (u i : ℕ) (db : Db) where
  abbrev Guarded : Category → Db → Type 0
  Guarded row d =
      (exists (transaction_refers u i) d.transactions ≡ false)
      × ((exists (draft_refers u i) d.inbox ≡ false)
          × ((find (is_resolved Tables.categories i u false) db.categories ≡ some row)
              × (is_some row.system_key ≡ false)))

  delete-Triple :
      Triple
        (λ d. d ≡ db)
        (delete_category u i)
        (λ _ after. (row : Category) × Unreferenced u i row db after)
        Any
  unfolding delete_category
  delete-Triple =
      Triple-bind
        (fetch_owned_row_or_404-Triple Tables.categories (λ _ _. tt) i u Resource.category false)
        λ row. Triple-bind (Triple-raise_if (λ _ _. tt) _ _) λ _.
          Triple-bind (Triple-gets (λ _ _. tt) _) λ has_txns.
            Triple-bind (Triple-raise_if (λ _ _. tt) has_txns _) λ _.
              Triple-bind (Triple-gets (λ _ _. tt) _) λ has_inbox.
                Triple-bind (Triple-raise_if (λ _ _. tt) has_inbox _) λ _.
                  Triple-post
                    (λ s d h. (
                      row,
                      record {
                        was_found = h.0.1.1.0;
                        was_no_system = h.0.1.1.1;
                        no_transaction = h.0.0;
                        no_draft = h.0.1.0;
                        closed = h.1;
                      },
                    ))
                    (Triple-pre
                      (λ d h. (
                        (
                          h.0.0.0.1 ∙ h.0.0.1,
                          (
                            h.0.1 ∙ h.1,
                            (
                              subst
                                  (λ (x : Db).
                                    find (is_resolved Tables.categories i u false) x.categories
                                    ≡ some row)
                                  h.0.0.0.0.0.0 h.0.0.0.0.0.1,
                              h.0.0.0.0.1,
                            ),
                          ),
                        ),
                        h.0.0.0.0.0.1,
                      ))
                      (soft_delete_with_audit-Closed Named.categories categories-Lawful
                        (Guarded row) (λ d rs g. g) (λ d es g. g) u i Resource.category row
                        (λ r. pure (snapshot r)) (λ Q r. Keeps-pure _)))

-- A delete that returns closed a category that no system flow owns: the active category with the
-- id is gone, it had no system key, and no active transaction or draft of the user names it.
pub delete_category-Unreferenced :
    (u i : ℕ) (db : Db) (s : Snapshot) (after : Db)
    → delete_category u i db ≡ (ok s, after)
    → (row : Category) × Unreferenced u i row db after
delete_category-Unreferenced u i db s after e =
    Triple-result (delete-Triple u i db) db s after refl e
