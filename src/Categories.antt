-- ===== src/Categories.antt =====
-- app/helpers/categories.py: the service functions of categories, and the seeding of system ones.
pub mod Guards
pub mod Names
pub mod Seeding
use expense_world_engine.Base.{
  ℕ, Bool, false, true, not, ◌&&◌, ◌||◌, Option, none, some, List, [], ◌∷◌, exists, find, ◌==◌,
  is_none, is_some, or_else, if◌then◌else◌,
}
use expense_world_engine.Base.Int.{ℤ, pos}
use expense_world_engine.Schema.{
  Text, Category, CategoryResponse, category_from_row, Transaction, InboxItem, SystemCategoryKey,
  opening_balance, created, Resource, Snapshot, Db,
}
use expense_world_engine.Schema.Tables
use expense_world_engine.Exec.{
  Exec, Field, name, name_exists, reserved_name, system_row, referenced, seeding_raced,
  squatted_name, already_exists, validation_failed, validation_error, conflict, forbidden, pure,
  raise, gets, modify, raise_if, or_raise, for_some, ◌>>=◌, ◌>>◌,
}
use expense_world_engine.Text.{same_text}
use expense_world_engine.Validation.{normalize_name, validate_color}
use expense_world_engine.Query.{
  fetch_owned_row_or_404, soft_delete_with_audit, restore_with_audit, write_activity_log,
}
use expense_world_engine.Named.{
  Casing, NamedFields, name_taken, choose_sort_order, update_named_resource,
}
use expense_world_engine.Named

-- "@Opening"
abbrev pub default_name : SystemCategoryKey → Text
default_name opening_balance = 64 ∷ 79 ∷ 112 ∷ 101 ∷ 110 ∷ 105 ∷ 110 ∷ 103 ∷ []

-- "#6b7280", the DEFAULT of the column
abbrev pub default_color : Text
default_color = 35 ∷ 54 ∷ 98 ∷ 55 ∷ 50 ∷ 56 ∷ 48 ∷ []

abbrev pub same_key : SystemCategoryKey → SystemCategoryKey → Bool
same_key opening_balance opening_balance = true

-- WHERE system_key = $2: false where the column is NULL
abbrev pub has_key : SystemCategoryKey → Category → Bool
has_key k r = elim r.system_key [ none ↦ false | some l ↦ same_key l k ]

abbrev pub is_system_category : ℕ → SystemCategoryKey → Category → Bool
is_system_category u k r = (r.user_id == u && has_key k r) && is_none r.deleted_at

abbrev pub new_category : ℕ → ℕ → ℕ → Text → Text → Option SystemCategoryKey → ℤ → Category
new_category now u i n color key order = record {
  id = i;
  user_id = u;
  name = n;
  color = color;
  system_key = key;
  sort_order = order;
  created_at = now;
  updated_at = now;
  version = 1;
  deleted_at = none;
}

unfoldable pub fetch_system_category : ℕ → SystemCategoryKey → Exec (Option Category)
fetch_system_category u key = gets (λ db. find (is_system_category u key) db.categories)

unfoldable pub reread_seeded : ℕ → SystemCategoryKey → Exec ℕ
reread_seeded u key = do
  row ← fetch_system_category u key
  for_some row (raise (conflict seeding_raced)) (λ r. pure r.id)

module _ (c : Casing) where
  open c use {sql_lower, py_lower}

  -- The set holds the folded default names.
  unfoldable pub is_reserved : Text → Bool
  is_reserved n = same_text (py_lower n) (py_lower (default_name opening_balance))

  unfoldable pub reject_reserved_name : Text → Exec Unit
  reject_reserved_name n =
      raise_if (is_reserved n)
        (validation_error validation_failed ((Field.name, reserved_name) ∷ []))

  -- What the unique indexes refuse: the primary key, and (user_id, LOWER(name)) of active rows.
  abbrev pub violates_unique : ℕ → ℕ → Text → Category → Bool
  violates_unique u i n r =
      r.id == i
      || ((r.user_id == u && same_text (sql_lower r.name) (sql_lower n)) && is_none r.deleted_at)

  -- ON CONFLICT (user_id, system_key) DO NOTHING RETURNING id; `i` is the random id.
  unfoldable pub seed_category : ℕ → SystemCategoryKey → ℕ → Exec (Option ℕ)
  seed_category u key i = do
    seeded ← gets (λ db. exists (is_system_category u key) db.categories)
    squatted ← gets (λ db. exists (violates_unique u i (default_name key)) db.categories)
    now ← gets (λ db. db.now)
    if seeded then pure none else (do
      raise_if squatted (conflict squatted_name)
      modify (λ db. record db {
        categories =
            new_category now u i (default_name key) default_color (some key) (pos 0)
            ∷ db.categories;
      })
      pure (some i))

  unfoldable pub seed_or_reread : ℕ → SystemCategoryKey → ℕ → Exec ℕ
  seed_or_reread u key i = do
    seeded ← seed_category u key i
    for_some seeded (reread_seeded u key) pure

  unfoldable pub ensure_system_category : ℕ → SystemCategoryKey → ℕ → Exec ℕ
  ensure_system_category u key i = do
    row ← fetch_system_category u key
    for_some row (seed_or_reread u key i) (λ r. pure r.id)

-- The INSERT of a user's category, whose primary key refuses an id that stands in the table.
unfoldable pub insert_category : ℕ → ℕ → Text → Text → ℤ → Exec Category
insert_category u i n color order = do
  taken ← gets (λ db. exists (λ r. r.id == i) db.categories)
  now ← gets (λ db. db.now)
  raise_if taken (conflict already_exists)
  modify (λ db. record db { categories = new_category now u i n color none order ∷ db.categories })
  pure (new_category now u i n color none order)

abbrev pub set_category : NamedFields → Category → Category
set_category f r = record r {
  name = or_else f.name r.name;
  color = or_else f.color r.color;
  sort_order = or_else f.sort_order r.sort_order;
}

abbrev pub snapshot : Category → Snapshot
snapshot r = Snapshot.category (category_from_row r)

module _ (c : Casing) where
  unfoldable pub create_category : ℕ → ℕ → Text → Text → Option ℤ → Exec CategoryResponse
  create_category u i n color sort_order = do
    cleaned ← normalize_name n Field.name
    reject_reserved_name c cleaned
    validate_color (some color)
    taken ← name_taken Named.categories c u cleaned none none
    raise_if taken (conflict name_exists)
    order ← choose_sort_order Named.categories u none sort_order
    row ← insert_category u i cleaned color order
    write_activity_log u Resource.category row.id created none (some (snapshot row))
    pure (category_from_row row)

  -- System rows own their names; the others may not take a reserved one.
  abbrev pub veto_reserved : Category → Text → Exec Unit
  veto_reserved row n = if is_none row.system_key then reject_reserved_name c n else pure tt

  unfoldable pub update_category : ℕ → ℕ → NamedFields → Exec Snapshot
  update_category u i fields =
      update_named_resource c Named.categories u Resource.category i fields set_category snapshot
        veto_reserved

-- An active row of the user that names the category
abbrev pub transaction_refers : ℕ → ℕ → Transaction → Bool
transaction_refers u i t = (t.category_id == i && t.user_id == u) && is_none t.deleted_at

abbrev pub draft_refers : ℕ → ℕ → InboxItem → Bool
draft_refers u i d =
    (elim d.category_id [ none ↦ false | some k ↦ k == i ] && d.user_id == u)
    && is_none d.deleted_at

unfoldable pub delete_category : ℕ → ℕ → Exec Snapshot
delete_category u i = do
  row ← fetch_owned_row_or_404 Tables.categories i u Resource.category false
  raise_if (is_some row.system_key) (forbidden system_row)
  has_txns ← gets (λ db. exists (transaction_refers u i) db.transactions)
  raise_if has_txns (conflict referenced)
  has_inbox ← gets (λ db. exists (draft_refers u i) db.inbox)
  raise_if has_inbox (conflict referenced)
  soft_delete_with_audit Tables.categories u Resource.category row (λ r. pure (snapshot r))

unfoldable pub restore_category : Casing → ℕ → ℕ → Exec Snapshot
restore_category c u i = do
  before_row ← fetch_owned_row_or_404 Tables.categories i u Resource.category true
  veto_reserved c before_row before_row.name
  taken ← name_taken Named.categories c u before_row.name (some i) none
  raise_if taken (conflict name_exists)
  restore_with_audit Tables.categories u Resource.category before_row (λ r. pure (snapshot r))
