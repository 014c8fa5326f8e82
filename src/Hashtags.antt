-- ===== src/Hashtags.antt =====
-- app/helpers/hashtags.py: the service functions of tags.
pub mod Names
pub mod Guards
use expense_world_engine.Base.{
  ℕ, Bool, false, true, ◌&&◌, Option, none, some, List, ◌∷◌, map, select, exists, update_where,
  ◌==◌, is_none, or_else,
}
use expense_world_engine.Base.Int.{ℤ}
use expense_world_engine.Schema.{
  Text, Hashtag, Junction, TransactionSource, ledger, inbox, created, Resource, Snapshot, Db,
}
use expense_world_engine.Schema.Tables.{Table}
use expense_world_engine.Schema.Tables
use expense_world_engine.Exec.{
  Exec, Field, name, name_exists, already_exists, conflict, pure, raise, gets, modify, raise_if,
  ◌>>=◌, ◌>>◌,
}
use expense_world_engine.Validation.{normalize_name}
use expense_world_engine.Query.{
  fetch_owned_row_or_404, update_rows, soft_delete_with_audit, restore_with_audit,
  write_activity_log,
}
use expense_world_engine.Links.{same_source, elem, closed}
use expense_world_engine.Named.{
  Casing, NamedFields, name_taken, choose_sort_order, update_named_resource,
}
use expense_world_engine.Named

abbrev pub new_hashtag : ℕ → ℕ → ℕ → Text → ℤ → Hashtag
new_hashtag now u i n order = record {
  id = i;
  user_id = u;
  name = n;
  sort_order = order;
  created_at = now;
  updated_at = now;
  version = 1;
  deleted_at = none;
}

-- The INSERT, whose primary key refuses an id that stands in the table.
unfoldable pub insert_hashtag : ℕ → ℕ → Text → ℤ → Exec Hashtag
insert_hashtag u i n order = do
  taken ← gets (λ db. exists (λ r. r.id == i) db.hashtags)
  now ← gets (λ db. db.now)
  raise_if taken (conflict already_exists)
  modify (λ db. record db { hashtags = new_hashtag now u i n order ∷ db.hashtags })
  pure (new_hashtag now u i n order)

abbrev pub set_hashtag : NamedFields → Hashtag → Hashtag
set_hashtag f r = record r {
  name = or_else f.name r.name;
  sort_order = or_else f.sort_order r.sort_order;
}

-- Every active link of the tag, on either kind of parent
abbrev pub carries : ℕ → ℕ → Junction → Bool
carries u i j = (j.hashtag_id == i && j.user_id == u) && is_none j.deleted_at

-- The ids of one source in what the UPDATE returned
abbrev pub parents_of : TransactionSource → List Junction → List ℕ
parents_of s affected =
    map (λ j. j.transaction_id) (select (λ j. same_source j.transaction_source s) affected)

-- WHERE id = ANY($1) AND user_id = $2
abbrev pub is_any_of : {R : Type 0} → Table R → List ℕ → ℕ → R → Bool
is_any_of t ids u r = elem (t.id_of r) ids && t.owner_of r == u

unfoldable pub bump_parents : {R : Type 0} → Table R → ℕ → List ℕ → Exec Unit
bump_parents t u ids = modify (update_rows t (is_any_of t ids u) t.touched)

-- The UPDATE of the junction with its RETURNING
unfoldable pub close_links : ℕ → ℕ → Exec (List Junction)
close_links u i = do
  affected ← gets (λ db. select (carries u i) db.junctions)
  modify (λ db. record db { junctions = update_where (carries u i) (closed db.now) db.junctions })
  pure affected

unfoldable pub detach_everywhere : ℕ → ℕ → Exec Unit
detach_everywhere u i = do
  affected ← close_links u i
  bump_parents Tables.transactions u (parents_of ledger affected)
  bump_parents Tables.inbox u (parents_of inbox affected)

module _ (c : Casing) where
  unfoldable pub create_hashtag : ℕ → ℕ → Text → Option ℤ → Exec Hashtag
  create_hashtag u i n sort_order = do
    cleaned ← normalize_name n Field.name
    taken ← name_taken Named.hashtags c u cleaned none none
    raise_if taken (conflict name_exists)
    order ← choose_sort_order Named.hashtags u none sort_order
    row ← insert_hashtag u i cleaned order
    write_activity_log u Resource.hashtag row.id created none (some (Snapshot.hashtag row))
    pure row

  unfoldable pub update_hashtag : ℕ → ℕ → NamedFields → Exec Snapshot
  update_hashtag u i fields =
      update_named_resource c Named.hashtags u Resource.hashtag i fields set_hashtag
        Snapshot.hashtag (λ row n. pure tt)

unfoldable pub delete_hashtag : ℕ → ℕ → Exec Snapshot
delete_hashtag u i = do
  row ← fetch_owned_row_or_404 Tables.hashtags i u Resource.hashtag false
  detach_everywhere u i
  soft_delete_with_audit Tables.hashtags u Resource.hashtag row (λ r. pure (Snapshot.hashtag r))

unfoldable pub restore_hashtag : Casing → ℕ → ℕ → Exec Snapshot
restore_hashtag c u i = do
  before_row ← fetch_owned_row_or_404 Tables.hashtags i u Resource.hashtag true
  taken ← name_taken Named.hashtags c u before_row.name (some i) none
  raise_if taken (conflict name_exists)
  restore_with_audit Tables.hashtags u Resource.hashtag before_row (λ r. pure (Snapshot.hashtag r))
