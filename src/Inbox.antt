-- ===== src/Inbox.antt =====
-- app/helpers/inbox.py: drafts, and their promotion into the ledger.
pub mod Promote
pub mod Keeps
pub mod Once
use expense_world_engine.Base.{
  ℕ, ◌≡◌, Bool, true, false, not, ◌&&◌, Option, none, some, List, [], ◌∷◌, ◌++◌, find, exists, ltb,
  ◌==◌, is_none, is_some, or_else, if◌then◌else◌,
}
use expense_world_engine.Base.Int.{ℤ, abs}
use expense_world_engine.Schema.{
  Text, InboxItem, InboxStatus, pending, promoted, InboxResponse, Transaction, TransactionSource,
  TransactionResponse, TransactionType, created, updated, deleted, Resource, Snapshot, Db,
}
use expense_world_engine.Schema.Tables
use expense_world_engine.Exec.{
  Exec, Field, Msg, amount_cents, already_exists, conflict, not_found, internal_error, pure, raise,
  gets, modify, raise_if, or_raise, for_some, ◌>>=◌, ◌>>◌,
}
use expense_world_engine.Text.{clean_name}
use expense_world_engine.Query.{
  fetch_owned_row_or_404, dynamic_update, soft_delete, write_activity_log,
}
use expense_world_engine.Validation.{
  reject_zero_amount, validate_active_account, validate_active_category,
}
use expense_world_engine.Links.{fetch_hashtag_ids, cascade_delete, sync_hashtags}
use expense_world_engine.Ledger.Requests.{infer_transaction_type}

pub record InboxCreateRequest : Type 0 where
  pub id : ℕ
  pub title : Option Text
  pub description : Option Text
  pub amount_cents : Option ℤ
  pub date : Option ℕ
  pub account_id : Option ℕ
  pub category_id : Option ℕ
  -- an omitted list acts as the empty one
  pub hashtag_ids : List ℕ

-- A PUT: a field that was not sent is `none`, and none may be sent as null.
pub record InboxUpdateRequest : Type 0 where
  pub title : Option Text
  pub description : Option Text
  pub amount_cents : Option ℤ
  pub date : Option ℕ
  pub account_id : Option ℕ
  pub category_id : Option ℕ
  pub hashtag_ids : Option (List ℕ)

abbrev pub map_some : {A B : Type 0} → (A → B) → Option A → Option B
map_some f none = none
map_some f (some a) = some (f a)

abbrev pub new_item : ℕ → ℕ → InboxCreateRequest → InboxItem
new_item now u body = record {
  id = body.id;
  user_id = u;
  title = clean_name body.title;
  description = body.description;
  amount_cents = map_some abs body.amount_cents;
  transaction_type = map_some infer_transaction_type body.amount_cents;
  date = body.date;
  account_id = body.account_id;
  category_id = body.category_id;
  status = pending;
  created_at = now;
  updated_at = now;
  version = 1;
  deleted_at = none;
}

unfoldable pub attach_inbox_ids : InboxItem → Exec InboxResponse
attach_inbox_ids row = do
  ids ← fetch_hashtag_ids row.id TransactionSource.inbox
  pure (record { row = row; hashtag_ids = ids })

abbrev pub check_references : ℕ → Option ℕ → Option ℕ → Exec Unit
check_references u account category =
    for_some account (pure tt) (λ i. validate_active_account i u >> pure tt)
    >> for_some category (pure tt) (λ i. validate_active_category i u >> pure tt)

abbrev pub check_amount : Option ℤ → Exec Unit
check_amount o = for_some o (pure tt) (λ v. reject_zero_amount v amount_cents)

-- `if body.hashtag_ids: await sync_hashtags(…)`
abbrev pub sync_inbox : ℕ → ℕ → List ℕ → Exec Unit
sync_inbox u i [] = pure tt
sync_inbox u i (h ∷ ids) = sync_hashtags u i (h ∷ ids) TransactionSource.inbox

unfoldable pub create_inbox_item : ℕ → InboxCreateRequest → Exec InboxResponse
create_inbox_item u body = do
  check_amount body.amount_cents
  check_references u body.account_id body.category_id
  taken ← gets (λ db. exists (λ r. r.id == body.id) db.inbox)
  raise_if taken (conflict already_exists)
  now ← gets (λ db. db.now)
  modify (λ db. record db { inbox = new_item db.now u body ∷ db.inbox })
  sync_inbox u body.id body.hashtag_ids
  response ← attach_inbox_ids (new_item now u body)
  write_activity_log u Resource.inbox_item body.id created none
      (some (Snapshot.inbox_item response))
  pure response

abbrev pub sent_nothing : InboxUpdateRequest → Bool
sent_nothing f =
    is_none f.title
    && (is_none f.description
        && (is_none f.amount_cents
            && (is_none f.date
                && (is_none f.account_id && (is_none f.category_id && is_none f.hashtag_ids)))))

abbrev pub keep_or_set : {A : Type 0} → Option A → Option A → Option A
keep_or_set none old = old
keep_or_set (some a) old = some a

abbrev pub set_item : InboxUpdateRequest → InboxItem → InboxItem
set_item f r = record r {
  title = elim f.title [ none ↦ r.title | some t ↦ clean_name (some t) ];
  description = keep_or_set f.description r.description;
  amount_cents = keep_or_set (map_some abs f.amount_cents) r.amount_cents;
  transaction_type =
      keep_or_set (map_some infer_transaction_type f.amount_cents) r.transaction_type;
  date = keep_or_set f.date r.date;
  account_id = keep_or_set f.account_id r.account_id;
  category_id = keep_or_set f.category_id r.category_id;
}

unfoldable pub apply_item_update : ℕ → ℕ → InboxUpdateRequest → InboxResponse → Exec InboxResponse
apply_item_update u i f before = do
  changed ← dynamic_update Tables.inbox (set_item f) i u
  after_row ← or_raise changed (not_found Resource.inbox_item)
  for_some f.hashtag_ids (pure tt) (λ ids. sync_hashtags u i ids TransactionSource.inbox)
  after ← attach_inbox_ids after_row
  write_activity_log u Resource.inbox_item i updated (some (Snapshot.inbox_item before))
      (some (Snapshot.inbox_item after))
  pure after

unfoldable pub fetch_item : ℕ → ℕ → Exec InboxResponse
fetch_item u i = do
  row ← fetch_owned_row_or_404 Tables.inbox i u Resource.inbox_item false
  attach_inbox_ids row

unfoldable pub update_sent : ℕ → ℕ → InboxUpdateRequest → Exec InboxResponse
update_sent u i f = do
  check_amount f.amount_cents
  before ← fetch_item u i
  check_references u f.account_id f.category_id
  apply_item_update u i f before

unfoldable pub update_inbox_item : ℕ → ℕ → InboxUpdateRequest → Exec InboxResponse
update_inbox_item u i f = if sent_nothing f then fetch_item u i else update_sent u i f

unfoldable pub delete_inbox_item : ℕ → ℕ → Exec InboxResponse
delete_inbox_item u i = do
  before ← fetch_item u i
  changed ← soft_delete Tables.inbox i u
  after_row ← or_raise changed internal_error
  cascade_delete u i TransactionSource.inbox []
  after ← attach_inbox_ids after_row
  write_activity_log u Resource.inbox_item i deleted (some (Snapshot.inbox_item before))
      (some (Snapshot.inbox_item after))
  pure after
