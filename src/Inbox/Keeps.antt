-- ===== src/Inbox/Keeps.antt =====
-- What the inbox's service functions write, for any invariant that survives those writes.
use expense_world_engine.Base.{ℕ, ◌≡◌, ◌==◌, exists, false, Option, List, [], ◌∷◌}
use expense_world_engine.Base.Int.{ℤ}
use expense_world_engine.Schema.{
  Db, InboxItem, InboxResponse, TransactionSource, ActivityAction, Resource, Snapshot,
}
use expense_world_engine.Schema.Tables
use expense_world_engine.Exec.{modify}
use expense_world_engine.Exec.Keeps.{Keeps, keeps_rules}
use expense_world_engine.Query.{
  dynamic_update, update_returning, is_owned, write_activity_log, soft_delete,
}
use expense_world_engine.Query.Owned.{fetch_owned_row_or_404-Keeps}
use expense_world_engine.Links.{sync_hashtags, cascade_delete}
use expense_world_engine.Ledger.Create.{sync_if_any}
use expense_world_engine.Ledger.Rows.{insert_transaction_row}
use expense_world_engine.Links.Keeps.{fetch_hashtag_ids-Keeps}
use expense_world_engine.Ledger.Rows.{NewTransaction, new_row}
use expense_world_engine.Ledger.Keeps.{
  SurvivesSideWrites, write_activity_log-Keeps, validate_active_account-Keeps,
  validate_active_category-Keeps, reject_zero_amount-Keeps, sync-Keeps, close-Keeps,
  sync_if_any-Keeps, attach_hashtag_ids-Keeps, insert_transaction_row-Keeps,
}
use expense_world_engine.Inbox.{
  InboxCreateRequest, InboxUpdateRequest, new_item, attach_inbox_ids, check_references,
  check_amount, sync_inbox, create_inbox_item, set_item, apply_item_update, fetch_item, update_sent,
  update_inbox_item, delete_inbox_item,
}
use expense_world_engine.Inbox.Promote.{retired, insert_promoted, retire_draft, promote_inbox_item}

module _ {P : Db → Type 0} where
  pub attach_inbox_ids-Keeps : (row : InboxItem) → Keeps P (attach_inbox_ids row)
  unfolding attach_inbox_ids
  attach_inbox_ids-Keeps row = search (keeps_rules, fetch_hashtag_ids-Keeps)

  pub fetch_item-Keeps : (u i : ℕ) → Keeps P (fetch_item u i)
  unfolding fetch_item
  fetch_item-Keeps u i = search (keeps_rules, fetch_owned_row_or_404-Keeps, attach_inbox_ids-Keeps)

  pub check_references-Keeps : (u : ℕ) (a c : Option ℕ) → Keeps P (check_references u a c)
  check_references-Keeps u a c =
      search (keeps_rules, validate_active_account-Keeps, validate_active_category-Keeps) depth 8

  pub check_amount-Keeps : (o : Option ℤ) → Keeps P (check_amount o)
  check_amount-Keeps o = search (keeps_rules, reject_zero_amount-Keeps)

pub ruleset reads = (
  keeps_rules, attach_inbox_ids-Keeps, fetch_item-Keeps, check_references-Keeps, check_amount-Keeps,
)

module _ {u : ℕ} {P : Db → Type 0} (survives : SurvivesSideWrites u P) where
  log-Keeps :
      (noun : Resource) (i : ℕ) (action : ActivityAction) (b a : Option Snapshot)
      → Keeps P (write_activity_log u noun i action b a)
  log-Keeps = write_activity_log-Keeps survives

  sync_hashtags-Keeps :
      (i : ℕ) (ids : List ℕ) (s : TransactionSource) → Keeps P (sync_hashtags u i ids s)
  sync_hashtags-Keeps = sync-Keeps survives

  cascade-Keeps :
      (i : ℕ) (s : TransactionSource) (keep : List ℕ) → Keeps P (cascade_delete u i s keep)
  cascade-Keeps = close-Keeps survives

  tags-Keeps : (i : ℕ) (ids : List ℕ) → Keeps P (sync_if_any u i ids)
  tags-Keeps = sync_if_any-Keeps survives

  pub sync_inbox-Keeps : (i : ℕ) (ids : List ℕ) → Keeps P (sync_inbox u i ids)
  sync_inbox-Keeps i [] = search keeps_rules
  sync_inbox-Keeps i (h ∷ ids) = sync-Keeps survives i (h ∷ ids) TransactionSource.inbox

  pub create_inbox_item-Keeps :
      (body : InboxCreateRequest)
      → Keeps P (modify (λ db. record db { inbox = new_item db.now u body ∷ db.inbox }))
      → Keeps P (create_inbox_item u body)
  unfolding create_inbox_item
  create_inbox_item-Keeps body k = search (reads, sync_inbox-Keeps, log-Keeps) depth 20

  pub update_inbox_item-Keeps :
      (i : ℕ) (f : InboxUpdateRequest)
      → Keeps P (dynamic_update Tables.inbox (set_item f) i u)
      → Keeps P (update_inbox_item u i f)
  unfolding update_inbox_item update_sent apply_item_update
  update_inbox_item-Keeps i f k = search (reads, sync_hashtags-Keeps, log-Keeps) depth 20

  pub delete_inbox_item-Keeps :
      (i : ℕ) → Keeps P (soft_delete Tables.inbox i u) → Keeps P (delete_inbox_item u i)
  unfolding delete_inbox_item
  delete_inbox_item-Keeps i k = search (reads, cascade-Keeps, log-Keeps) depth 20

  retire_draft-Keeps :
      (i : ℕ) (before : InboxResponse)
      → Keeps P (update_returning Tables.inbox (is_owned Tables.inbox i u) retired)
      → Keeps P (retire_draft u i before)
  unfolding retire_draft
  retire_draft-Keeps i before k = search (reads, cascade-Keeps, log-Keeps) depth 20

  module _
      (inserts : (n : NewTransaction) (db : Db)
        → exists (λ t. t.id == n.id) db.transactions ≡ false
        → P db
        → P (record db { transactions = new_row db.now u n ∷ db.transactions })) where
    insert-Keeps : (n : NewTransaction) → Keeps P (insert_transaction_row u n)
    insert-Keeps = insert_transaction_row-Keeps survives inserts

    pub insert_promoted-Keeps :
        (r : InboxItem) (target : ℕ) (ids : List ℕ) → Keeps P (insert_promoted u r target ids)
    unfolding insert_promoted
    insert_promoted-Keeps r target ids =
        search (keeps_rules, insert-Keeps, tags-Keeps, attach_hashtag_ids-Keeps, log-Keeps) depth 12

    pub promote_inbox_item-Keeps :
        (i target : ℕ)
        → Keeps P (update_returning Tables.inbox (is_owned Tables.inbox i u) retired)
        → Keeps P (promote_inbox_item u i target)
    unfolding promote_inbox_item
    promote_inbox_item-Keeps i target k =
        search (reads, insert_promoted-Keeps, retire_draft-Keeps) depth 12
