-- ===== src/Tests/Drafts.antt =====
-- A promotion, and the tags of a parent, on the small database.
use expense_world_engine.Base.{◌≡◌, refl, [], ◌∷◌, find, exists, select, update_where}
use expense_world_engine.Schema.{Db, TransactionResponse, Resource, ledger, outflow}
use expense_world_engine.Exec.{
  Field, Result, ok, err, pure, raise, gets, modify, ◌>>=◌, internal_error, not_found,
}
use expense_world_engine.Query.{update_rows, update_returning, write_activity_log}
use expense_world_engine.Links.{
  elem, sort_ids, linked_ids, fetch_hashtag_ids, cascade_delete, cascade_restore, invalid_hashtags,
  upsert_link, upsert_links, sync_hashtags,
}
use expense_world_engine.Text.{same_text}
use expense_world_engine.Validation.{normalize_name}
use expense_world_engine.Validation.Cleaned
use expense_world_engine.Links.Sync
use expense_world_engine.Links.Cascade
use expense_world_engine.Ledger.Rows.{attach_hashtag_ids, insert_transaction_row}
use expense_world_engine.Inbox.{attach_inbox_ids}
use expense_world_engine.Inbox.Promote.{
  readiness_errors, insert_promoted, retire_draft, promote_inbox_item,
}
use expense_world_engine.Inbox.Once
use expense_world_engine.Base.{none, some}
use expense_world_engine.Tests.Data.{drafted, tagged}

abbrev promotion : Result TransactionResponse × Db
promotion = promote_inbox_item 1 60 61 drafted

abbrev promoted_response : TransactionResponse
promoted_response = record {
  row = record {
    id = 61;
    user_id = 1;
    title = 84 ∷ [];
    description = none;
    amount_cents = 400;
    transaction_type = outflow;
    date = 9;
    account_id = 10;
    category_id = 20;
    inbox_id = some 60;
    reconciliation_id = none;
    created_at = 10;
    updated_at = 10;
    version = 1;
    deleted_at = none;
  };
  hashtag_ids = [];
}

promotion_runs : promote_inbox_item 1 60 61 drafted ≡ (ok promoted_response, promotion.1)
unfolding same_text promote_inbox_item insert_promoted retire_draft readiness_errors
    attach_inbox_ids attach_hashtag_ids insert_transaction_row fetch_hashtag_ids linked_ids sort_ids
    cascade_delete update_rows update_returning write_activity_log find exists select update_where
    elem ◌>>=◌ pure raise gets modify
promotion_runs = refl

promote_inbox_item-again_example :
    promote_inbox_item 1 60 62 promotion.1 ≡ (err (not_found Resource.inbox_item), promotion.1)
promote_inbox_item-again_example =
    Once.promote_inbox_item-again 1 60 61 62 drafted promoted_response promotion.1 promotion_runs

-- The outflow gets the tag.
abbrev synced : Db
synced = (sync_hashtags 1 100 (30 ∷ []) ledger tagged).1

sync_runs : sync_hashtags 1 100 (30 ∷ []) ledger tagged ≡ (ok tt, synced)
unfolding sync_hashtags invalid_hashtags cascade_delete upsert_links upsert_link find exists
    update_where elem ◌>>=◌ pure raise gets modify
sync_runs = refl

sync_hashtags-linked_ids_example :
    elem 30 (linked_ids 100 ledger synced.junctions) ≡ elem 30 (30 ∷ [])
sync_hashtags-linked_ids_example =
    Sync.sync_hashtags-linked_ids 1 100 ledger (30 ∷ []) tagged synced ((λ _. refl), tt) sync_runs
      30

sync_hashtags-twice_example :
    (sync_hashtags 1 100 (30 ∷ 30 ∷ []) ledger tagged).0 ≡ err internal_error
unfolding exists invalid_hashtags elem Sync.is_twice
sync_hashtags-twice_example =
    Sync.sync_hashtags-twice 1 100 ledger 30 (30 ∷ 30 ∷ []) tagged refl refl refl

cascade_restore-cascade_delete_example :
    linked_ids 101 ledger
      (cascade_restore 1 101 ledger 10
        (record (cascade_delete 1 101 ledger [] tagged).1 { now = 20 })).1.junctions
    ≡ linked_ids 101 ledger tagged.junctions
cascade_restore-cascade_delete_example =
    Cascade.cascade_restore-cascade_delete 1 101 ledger 20 tagged (refl, tt)

-- " A"
normalize_name-IsCleaned_example :
    Cleaned.IsCleaned
      (32 ∷ 65 ∷ [])
      Field.name
      tagged
      (normalize_name (32 ∷ 65 ∷ []) Field.name tagged)
normalize_name-IsCleaned_example = Cleaned.normalize_name-IsCleaned (32 ∷ 65 ∷ []) Field.name tagged
