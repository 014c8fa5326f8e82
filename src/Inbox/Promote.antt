-- ===== src/Inbox/Promote.antt =====
-- `promote_inbox_item`: readiness, the ledger row, the tags that move with it, and the clean-up.
use expense_world_engine.Base.{
  ℕ, Bool, true, false, ◌&&◌, Option, none, some, List, [], ◌∷◌, ◌++◌, find, ltb, ◌==◌, is_none,
  or_else,
}
use expense_world_engine.Schema.{
  Text, InboxItem, InboxStatus, pending, promoted, InboxResponse, TransactionSource, ledger,
  TransactionResponse, TransactionType, deleted, Resource, Snapshot, Db,
}
use expense_world_engine.Schema.Tables
use expense_world_engine.Exec.{
  Exec, Field, Msg, title, amount_cents, date, account_id, category_id, transaction_type,
  not_untitled, not_zero, not_future, active_account, active_category, missing_direction, not_ready,
  validation_error, not_found, internal_error, pure, gets, raise_errors, or_raise, ◌>>=◌, ◌>>◌,
}
use expense_world_engine.Text.{same_text}
use expense_world_engine.Query.{is_owned, update_returning, write_activity_log}
use expense_world_engine.Validation.{flag, is_active_account, is_active_category}
use expense_world_engine.Links.{cascade_delete}
use expense_world_engine.Ledger.Rows.{NewTransaction, insert_transaction_row, attach_hashtag_ids}
use expense_world_engine.Ledger.Create.{sync_if_any, log_created, category_errors}
use expense_world_engine.Inbox.{attach_inbox_ids}

abbrev pub is_pending : InboxStatus → Bool
is_pending pending = true
is_pending promoted = false

-- WHERE id = $1 AND user_id = $2 AND status = $3 AND deleted_at IS NULL
abbrev pub is_promotable : ℕ → ℕ → InboxItem → Bool
is_promotable i u r = (r.id == i && r.user_id == u) && (is_pending r.status && is_none r.deleted_at)

-- "UNTITLED"
abbrev untitled : Text
untitled = b'U' ∷ b'N' ∷ b'T' ∷ b'I' ∷ b'T' ∷ b'L' ∷ b'E' ∷ b'D' ∷ []

-- `not title or title == "UNTITLED"`
abbrev pub is_unready_title : Option Text → Bool
is_unready_title none = true
is_unready_title (some []) = true
is_unready_title (some (c ∷ t)) = same_text (c ∷ t) untitled

abbrev pub is_unready_amount : Option ℕ → Bool
is_unready_amount none = true
is_unready_amount (some n) = n == 0

abbrev pub is_unready_date : ℕ → Option ℕ → Bool
is_unready_date now none = true
is_unready_date now (some d) = ltb now d

abbrev pub is_unready_account : Db → ℕ → Option ℕ → Bool
is_unready_account db u none = true
is_unready_account db u (some a) = is_none (find (is_active_account a u) db.accounts)

abbrev pub draft_category_errors : Db → ℕ → Option ℕ → List (Field × Msg)
draft_category_errors db u none = (category_id, active_category) ∷ []
draft_category_errors db u (some c) = category_errors (find (is_active_category c u) db.categories)

unfoldable pub readiness_errors : Db → ℕ → InboxItem → List (Field × Msg)
readiness_errors db u r =
    flag (is_unready_title r.title) title not_untitled
    ++ (flag (is_unready_amount r.amount_cents) amount_cents not_zero
        ++ (flag (is_unready_date db.now r.date) date not_future
            ++ (flag (is_unready_account db u r.account_id) account_id active_account
                ++ draft_category_errors db u r.category_id)))

-- The draft's columns, copied; the ones that readiness has checked are there.
abbrev pub promoted_form : InboxItem → ℕ → TransactionType → NewTransaction
promoted_form r target t = record {
  id = target;
  title = or_else r.title [];
  description = r.description;
  amount_cents = or_else r.amount_cents 0;
  transaction_type = t;
  date = or_else r.date 0;
  account_id = or_else r.account_id 0;
  category_id = or_else r.category_id 0;
  inbox_id = some r.id;
}

-- SET status = 2, deleted_at = now()
abbrev pub retired : ℕ → InboxItem → InboxItem
retired now r = Tables.inbox.touched now (record r { status = promoted; deleted_at = some now })

unfoldable pub insert_promoted : ℕ → InboxItem → ℕ → List ℕ → Exec TransactionResponse
insert_promoted u r target ids = do
  direction ←
      or_raise r.transaction_type
        (validation_error not_ready ((transaction_type, missing_direction) ∷ []))
  row ← insert_transaction_row u (promoted_form r target direction)
  sync_if_any u row.id ids
  response ← attach_hashtag_ids row ledger
  log_created u response
  pure response

unfoldable pub retire_draft : ℕ → ℕ → InboxResponse → Exec Unit
retire_draft u i before = do
  changed ← update_returning Tables.inbox (is_owned Tables.inbox i u) retired
  after_row ← or_raise changed internal_error
  cascade_delete u i TransactionSource.inbox []
  after ← attach_inbox_ids after_row
  write_activity_log u Resource.inbox_item i deleted (some (Snapshot.inbox_item before))
      (some (Snapshot.inbox_item after))

unfoldable pub promote_inbox_item : ℕ → ℕ → ℕ → Exec TransactionResponse
promote_inbox_item u i target = do
  found ← gets (λ db. find (is_promotable i u) db.inbox)
  draft_row ← or_raise found (not_found Resource.inbox_item)
  before ← attach_inbox_ids draft_row
  errors ← gets (λ db. readiness_errors db u draft_row)
  raise_errors not_ready errors
  response ← insert_promoted u draft_row target before.hashtag_ids
  retire_draft u i before
  pure response
