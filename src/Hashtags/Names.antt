-- ===== src/Hashtags/Names.antt =====
-- app/helpers/hashtags.py under the unique index of sql/012.
use expense_world_engine.Base.{ℕ, ◌≡◌, refl, ◌∙◌, Bool, Option, none, some, exists, ==_refl}
use expense_world_engine.Base.Int.{ℤ}
use expense_world_engine.Schema.{Text, Db, Resource, Snapshot, ActivityAction}
use expense_world_engine.Query.{update_rows, write_activity_log}
use expense_world_engine.Exec.{Field}
use expense_world_engine.Exec.Keeps.{Keeps, Keeps-bind, Keeps-modify, Keeps-pure, keeps_rules}
use expense_world_engine.Exec.Outcome.{
  Triple, Triple-bind, Triple-read, Triple-gets, Triple-raise_if, Triple-modify, Triple-Keeps,
  Keeps-Triple,
}
use expense_world_engine.Named.{Casing, NamedFields, holds_name}
use expense_world_engine.Named
use expense_world_engine.Named.Names.{Lawful, HasUniqueNames}
use expense_world_engine.Named.Changes.{insert-HasUniqueNames}
use expense_world_engine.Named.Keeps.{
  normalize_name-Keeps, choose_sort_order-Keeps, checked-Triple, log-Keeps,
  update_named_resource-Keeps, soft_delete_with_audit-Keeps, restore_with_audit-Triple,
}
use expense_world_engine.Query.Owned.{fetch_owned_row_or_404-Keeps}
use expense_world_engine.Query.Found.{fetch_owned_row_or_404-Triple}
use expense_world_engine.Schema.Tables
use expense_world_engine.Hashtags.{
  new_hashtag, insert_hashtag, set_hashtag, close_links, bump_parents, detach_everywhere,
  create_hashtag, update_hashtag, delete_hashtag, restore_hashtag,
}

abbrev pub hashtags-Lawful : Lawful Named.hashtags
hashtags-Lawful = record {
  rows-with_rows = λ db l. refl;
  rows-logged = λ db l. refl;
  id-touched = λ now r. refl;
  owner-touched = λ now r. refl;
  name-touched = λ now r. refl;
  currency-touched = λ now r. refl;
  deleted-touched = λ now r. refl;
  id-with_deleted = λ d r. refl;
  owner-with_deleted = λ d r. refl;
  name-with_deleted = λ d r. refl;
  currency-with_deleted = λ d r. refl;
  deleted-with_deleted = λ d r. refl;
}

module _ (c : Casing) where
  abbrev P : Db → Type 0
  P = HasUniqueNames c Named.hashtags

  insert_hashtag-Triple :
      (u i : ℕ) (n : Text) (order : ℤ)
      → Triple
          (λ db.
            P db × (exists (holds_name Named.hashtags c u n none none) db.hashtags ≡ Bool.false))
          (insert_hashtag u i n order)
          (λ _. P)
          P
  unfolding insert_hashtag
  insert_hashtag-Triple u i n order = Triple-bind (Triple-gets (λ _ h. h.0) _) λ taken.
      Triple-bind (Triple-gets (λ _ h. h.0.0) _) λ now.
        Triple-bind (Triple-raise_if (λ _ h. h.0.0.0) taken _) λ _.
          Triple-bind
            (Triple-modify _ λ db h.
              insert-HasUniqueNames c Named.hashtags hashtags-Lawful (new_hashtag now u i n order) u
                n none db (==_refl u) refl tt h.0.0.0.0 (h.0.0.1 ∙ h.1) h.0.0.0.1)
            λ _. Triple-Keeps (Keeps-pure _)

  log :
      (u i : ℕ) (action : ActivityAction) (b a : Option Snapshot)
      → Keeps P (write_activity_log u Resource.hashtag i action b a)
  log u = log-Keeps c Named.hashtags hashtags-Lawful u Resource.hashtag

  pub create_hashtag-HasUniqueNames :
      (u i : ℕ) (n : Text) (sort_order : Option ℤ) → Keeps P (create_hashtag c u i n sort_order)
  unfolding create_hashtag
  create_hashtag-HasUniqueNames u i n sort_order = Keeps-Triple (
      Triple-bind (Triple-read (λ _ h. h) (normalize_name-Keeps n Field.name)) λ cleaned.
        checked-Triple c Named.hashtags (λ _ h. h) u cleaned none none
          (Triple-bind (Triple-read (λ _ h. h.0) (choose_sort_order-Keeps Named.hashtags u none _))
            λ order.
              Triple-bind (insert_hashtag-Triple u i cleaned order)
                λ row. Triple-Keeps (search (keeps_rules, log))))

  pub update_hashtag-HasUniqueNames :
      (u i : ℕ) (fields : NamedFields) → Keeps P (update_hashtag c u i fields)
  unfolding update_hashtag
  update_hashtag-HasUniqueNames u i fields =
      update_named_resource-Keeps c Named.hashtags hashtags-Lawful u Resource.hashtag i fields
        set_hashtag Snapshot.hashtag _
        (λ o. record {
          id-set = λ r. refl;
          owner-set = λ r. refl;
          deleted-set = λ r. refl;
          currency-set = λ r. refl;
          name-set = λ r. refl;
        })
        (λ Q r n. Keeps-pure tt)

  detach_everywhere-HasUniqueNames : (u i : ℕ) → Keeps P (detach_everywhere u i)
  unfolding detach_everywhere close_links bump_parents update_rows
  detach_everywhere-HasUniqueNames u i =
      let write = λ (f : Db → Db) (h : (db : Db) → P db → P (f db)). Keeps-modify f h in
      search (keeps_rules, write) depth 12

  pub delete_hashtag-HasUniqueNames : (u i : ℕ) → Keeps P (delete_hashtag u i)
  unfolding delete_hashtag
  delete_hashtag-HasUniqueNames u i =
      Keeps-bind _ _ (fetch_owned_row_or_404-Keeps Tables.hashtags i u Resource.hashtag _) λ row.
        Keeps-bind _ _ (detach_everywhere-HasUniqueNames u i) λ _.
          soft_delete_with_audit-Keeps c Named.hashtags hashtags-Lawful u Resource.hashtag row _
            (λ r. Keeps-pure _)

  pub restore_hashtag-HasUniqueNames : (u i : ℕ) → Keeps P (restore_hashtag c u i)
  unfolding restore_hashtag
  restore_hashtag-HasUniqueNames u i = Keeps-Triple (
      Triple-bind (fetch_owned_row_or_404-Triple Tables.hashtags (λ _ h. h) i u Resource.hashtag _)
        λ row.
          checked-Triple c Named.hashtags (λ _ h. h.0) u row.name (some i) none
            (restore_with_audit-Triple c Named.hashtags hashtags-Lawful u i none Resource.hashtag
              row _ (λ Q r. Keeps-pure _) tt))
