-- ===== src/Links.antt =====
-- app/helpers/hashtag_links.py: the junction table between hashtags and their two kinds of parents.
pub mod Keeps
pub mod Sync
pub mod Cascade
use expense_world_engine.Base.{
  ℕ, ◌≡◌, Bool, true, false, not, ◌&&◌, ◌||◌, Option, none, some, List, [], ◌∷◌, map, select,
  exists, update_where, ltb, ◌==◌, is_at, is_none, is_some, if◌then◌else◌,
}
use expense_world_engine.Schema.{TransactionSource, ledger, inbox, Junction, Hashtag, Db}
use expense_world_engine.Exec.{
  Exec, pure, raise, gets, modify, ◌>>=◌, ◌>>◌, invalid_id_error, internal_error,
}

abbrev pub same_source : TransactionSource → TransactionSource → Bool
same_source ledger ledger = true
same_source inbox inbox = true
same_source _ _ = false

-- WHERE transaction_id = $1 AND transaction_source = $4
abbrev pub is_parent : ℕ → TransactionSource → Junction → Bool
is_parent p s j = j.transaction_id == p && same_source j.transaction_source s

abbrev pub is_active_link : ℕ → TransactionSource → Junction → Bool
is_active_link p s j = is_parent p s j && is_none j.deleted_at

-- The unique key of the table (sql/033)
abbrev pub is_link : ℕ → TransactionSource → ℕ → Junction → Bool
is_link p s h j = is_parent p s j && j.hashtag_id == h

unfoldable pub elem : ℕ → List ℕ → Bool
elem a [] = false
elem a (b ∷ l) = (b == a) || elem a l

-- ORDER BY hashtag_id
insert_id : ℕ → List ℕ → List ℕ
insert_id a [] = a ∷ []
insert_id a (b ∷ l) = if ltb b a then b ∷ insert_id a l else a ∷ b ∷ l

unfoldable pub sort_ids : List ℕ → List ℕ
unfolding insert_id
sort_ids [] = []
sort_ids (a ∷ l) = insert_id a (sort_ids l)

unfoldable pub linked_ids : ℕ → TransactionSource → List Junction → List ℕ
linked_ids p s js = map (λ j. j.hashtag_id) (select (is_active_link p s) js)

-- One parent's entry of the map; the array stands sorted by id.
unfoldable pub fetch_hashtag_ids : ℕ → TransactionSource → Exec (List ℕ)
fetch_hashtag_ids p s = gets (λ db. sort_ids (linked_ids p s db.junctions))

-- The rows that leave the active set: `<> ALL` of an empty list is true.
abbrev pub leaves : ℕ → ℕ → TransactionSource → List ℕ → Junction → Bool
leaves u p s keep j = is_active_link p s j && (j.user_id == u && not (elem j.hashtag_id keep))

abbrev pub closed : ℕ → Junction → Junction
closed now j = record j { deleted_at = some now; updated_at = now }

abbrev pub reopened : ℕ → Junction → Junction
reopened now j = record j { deleted_at = none; updated_at = now }

unfoldable pub cascade_delete : ℕ → ℕ → TransactionSource → List ℕ → Exec Unit
cascade_delete u p s keep =
    modify
      λ db. record db { junctions = update_where (leaves u p s keep) (closed db.now) db.junctions }

-- Only the rows whose marker is the parent's own.
abbrev pub is_marked : ℕ → ℕ → TransactionSource → ℕ → Junction → Bool
is_marked u p s marker j = is_parent p s j && (j.user_id == u && is_at j.deleted_at marker)

unfoldable pub cascade_restore : ℕ → ℕ → TransactionSource → ℕ → Exec Unit
cascade_restore u p s marker = modify λ db. record db {
  junctions = update_where (is_marked u p s marker) (reopened db.now) db.junctions;
}

abbrev pub is_valid_hashtag : ℕ → ℕ → Hashtag → Bool
is_valid_hashtag u h r = (r.id == h && r.user_id == u) && is_none r.deleted_at

unfoldable pub invalid_hashtags : ℕ → List Hashtag → List ℕ → List ℕ
invalid_hashtags u hs [] = []
invalid_hashtags u hs (h ∷ ids) =
    let rest = invalid_hashtags u hs ids in
    if exists (is_valid_hashtag u h) hs then rest else h ∷ rest

-- One row of the upsert: an active row stays, a closed one is reopened, else one is inserted.
unfoldable pub upsert_link : ℕ → ℕ → ℕ → TransactionSource → ℕ → List Junction → List Junction
upsert_link now u p s h js =
    if exists (λ j. is_link p s h j && is_none j.deleted_at) js
    then js
    else if exists (is_link p s h) js
    then update_where (is_link p s h) (reopened now) js
    else record {
      transaction_id = p;
      transaction_source = s;
      hashtag_id = h;
      user_id = u;
      created_at = now;
      updated_at = now;
      deleted_at = none;
    }
      ∷ js

-- INSERT … SELECT … FROM unnest ON CONFLICT DO UPDATE. Postgres refuses a statement that proposes a
-- row which this statement has written already; `written` holds the ids of those.
unfoldable pub upsert_links : ℕ → ℕ → TransactionSource → List ℕ → List ℕ → Exec Unit
upsert_links u p s written [] = pure tt
upsert_links u p s written (h ∷ ids) =
    let rest = λ (w : List ℕ). upsert_links u p s w ids in
    if elem h written then raise internal_error else (do
      active ← gets (λ db. exists (λ j. is_link p s h j && is_none j.deleted_at) db.junctions)
      modify (λ db. record db { junctions = upsert_link db.now u p s h db.junctions })
      rest (if active then written else h ∷ written))

unfoldable pub sync_hashtags : ℕ → ℕ → List ℕ → TransactionSource → Exec Unit
sync_hashtags u p ids s = do
  invalid ← gets (λ db. invalid_hashtags u db.hashtags ids)
  if exists (λ _. true) invalid then raise (invalid_id_error invalid) else pure tt
  cascade_delete u p s ids
  upsert_links u p s [] ids
