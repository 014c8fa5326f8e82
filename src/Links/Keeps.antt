-- ===== src/Links/Keeps.antt =====
-- What an invariant owes for the helpers of app/helpers/hashtag_links.py.
use expense_world_engine.Base.{ℕ, List, [], ◌∷◌}
use expense_world_engine.Schema.{Db, Junction, TransactionSource}
use expense_world_engine.Exec.{modify}
use expense_world_engine.Exec.Keeps.{Keeps, Keeps-modify, keeps_rules}
use expense_world_engine.Links.{
  fetch_hashtag_ids, cascade_delete, cascade_restore, upsert_links, sync_hashtags,
}

module _ {P : Db → Type 0}
    (blind : (js : List Junction) (db : Db) → P db → P (record db { junctions = js })) where
  write-Keeps : (f : Db → List Junction) → Keeps P (modify (λ db. record db { junctions = f db }))
  write-Keeps f = Keeps-modify _ (λ db h. blind (f db) db h)

  pub cascade_delete-Keeps :
      (u p : ℕ) (s : TransactionSource) (keep : List ℕ) → Keeps P (cascade_delete u p s keep)
  unfolding cascade_delete
  cascade_delete-Keeps u p s keep = write-Keeps _

  pub cascade_restore-Keeps :
      (u p : ℕ) (s : TransactionSource) (marker : ℕ) → Keeps P (cascade_restore u p s marker)
  unfolding cascade_restore
  cascade_restore-Keeps u p s marker = write-Keeps _

  upsert_links-Keeps :
      (u p : ℕ) (s : TransactionSource) (written ids : List ℕ)
      → Keeps P (upsert_links u p s written ids)
  unfolding upsert_links
  upsert_links-Keeps u p s written [] = search keeps_rules
  upsert_links-Keeps u p s written (h ∷ ids) =
      let rest = λ (w : List ℕ). upsert_links-Keeps u p s w ids in
      search (keeps_rules, write-Keeps, rest) depth 8

  pub sync_hashtags-Keeps :
      (u p : ℕ) (ids : List ℕ) (s : TransactionSource) → Keeps P (sync_hashtags u p ids s)
  unfolding sync_hashtags
  sync_hashtags-Keeps u p ids s =
      search (keeps_rules, cascade_delete-Keeps, upsert_links-Keeps) depth 8

pub fetch_hashtag_ids-Keeps :
    {P : Db → Type 0} (p : ℕ) (s : TransactionSource) → Keeps P (fetch_hashtag_ids p s)
unfolding fetch_hashtag_ids
fetch_hashtag_ids-Keeps p s = search keeps_rules
