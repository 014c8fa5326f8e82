-- ===== src/Hashtags/Guards.antt =====
-- `delete_hashtag` of app/helpers/hashtags.py: the cascade over the links of every parent.
use expense_world_engine.Base.{ℕ, ◌≡◌, false, some, find, exists, arith}
use expense_world_engine.Base.Replace.{exists-update_all}
use expense_world_engine.Schema.{Db, Hashtag, Resource, Snapshot}
use expense_world_engine.Schema.Tables
use expense_world_engine.Exec.{ok, pure}
use expense_world_engine.Exec.Keeps.{Keeps-pure, Keeps-bind, Keeps-modify}
use expense_world_engine.Exec.Outcome.{
  Triple, Triple-bind, Triple-gets, Triple-modify, Triple-read, Triple-weaken, Triple-pre,
  Triple-result,
}
use expense_world_engine.Query.{is_resolved, update_rows}
use expense_world_engine.Query.Found.{fetch_owned_row_or_404-Triple}
use expense_world_engine.Ledger.Balance.Effects.{Any}
use expense_world_engine.Links.{closed}
use expense_world_engine.Named
use expense_world_engine.Named.Closed.{soft_delete_with_audit-Closed}
use expense_world_engine.Hashtags.{
  carries, close_links, bump_parents, detach_everywhere, delete_hashtag,
}
use expense_world_engine.Hashtags.Names.{hashtags-Lawful}

module _ (u i : ℕ) where
  -- No active link carries the tag.
  abbrev Detached : Db → Type 0
  Detached db = exists (carries u i) db.junctions ≡ false

  abbrev Both : Hashtag → Db → Type 0
  Both row db = Detached db × (find (is_resolved Tables.hashtags i u false) db.hashtags ≡ some row)

  detach-Triple :
      (row : Hashtag)
      → Triple
          (λ db. find (is_resolved Tables.hashtags i u false) db.hashtags ≡ some row)
          (detach_everywhere u i)
          (λ _. Both row)
          Any
  unfolding detach_everywhere close_links bump_parents update_rows
  detach-Triple row =
      Triple-bind
        (Triple-bind (Triple-gets (λ _ _. tt) _) λ affected.
          Triple-bind
            (Triple-weaken {E = Both row} (λ _ _. tt)
              (Triple-modify _ λ db h. (
                exists-update_all (carries u i) (carries u i) (closed db.now) db.junctions
                    (λ j k. k) (λ j. ground arith),
                h.0,
              )))
            λ _. Triple-read (λ _ _. tt) (Keeps-pure affected))
        λ affected.
          Triple-read (λ _ _. tt)
            (Keeps-bind _ _ (Keeps-modify _ (λ db h. h)) λ _. Keeps-modify _ (λ db h. h))

  delete-Triple :
      Triple Any
        (delete_hashtag u i)
        (λ _ after.
          Detached after × (exists (is_resolved Tables.hashtags i u false) after.hashtags ≡ false))
        Any
  unfolding delete_hashtag
  delete-Triple =
      Triple-bind
        (fetch_owned_row_or_404-Triple Tables.hashtags (λ _ _. tt) i u Resource.hashtag false)
        λ row. Triple-bind (Triple-pre (λ _ h. h.1) (detach-Triple row)) λ _.
          soft_delete_with_audit-Closed Named.hashtags hashtags-Lawful Detached (λ d rs g. g)
            (λ d es g. g) u i Resource.hashtag row (λ r. pure (Snapshot.hashtag r))
            (λ Q r. Keeps-pure _)

-- A delete that returns leaves no active link of the user to the tag, on a transaction or on a
-- draft, and no active tag of the user with the id.
pub delete_hashtag-carries :
    (u i : ℕ) (db : Db) (s : Snapshot) (after : Db)
    → delete_hashtag u i db ≡ (ok s, after)
    → (exists (carries u i) after.junctions ≡ false)
      × (exists (is_resolved Tables.hashtags i u false) after.hashtags ≡ false)
delete_hashtag-carries u i db s after e = Triple-result (delete-Triple u i) db s after tt e
