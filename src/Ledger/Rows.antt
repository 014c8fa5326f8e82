-- ===== src/Ledger/Rows.antt =====
-- The reads and writes of one ledger row that the service functions share.
use expense_world_engine.Base.{
  ℕ, Bool, true, false, ◌&&◌, Option, none, ◌∷◌, find, exists, ◌==◌, if◌then◌else◌,
}
use expense_world_engine.Schema.{
  Text, TransactionType, TransactionSource, Transaction, Reconciliation, draft, completed,
  TransactionResponse,
}
use expense_world_engine.Exec.{
  Exec, pure, raise, gets, modify, ◌>>=◌, ◌>>◌, conflict, already_exists,
}
use expense_world_engine.Links.{fetch_hashtag_ids}

abbrev pub is_completed : Reconciliation → Bool
is_completed r = elim r.status [ draft ↦ false | completed ↦ true ]

abbrev pub is_reconciliation : ℕ → ℕ → Reconciliation → Bool
is_reconciliation i u r = r.id == i && r.user_id == u

-- Soft-deleted rows are returned too.
unfoldable pub fetch_recon_status : ℕ → ℕ → Exec (Option Reconciliation)
fetch_recon_status u i = gets (λ db. find (is_reconciliation i u) db.reconciliations)

-- `{**row, "hashtag_ids": …}`
unfoldable pub attach_hashtag_ids : Transaction → TransactionSource → Exec TransactionResponse
attach_hashtag_ids row s = do
  ids ← fetch_hashtag_ids row.id s
  pure (record { row = row; hashtag_ids = ids })

-- The columns that a caller of the INSERT binds, in their storage forms.
pub record NewTransaction : Type 0 where
  pub id : ℕ
  pub title : Text
  pub description : Option Text
  pub amount_cents : ℕ
  pub transaction_type : TransactionType
  pub date : ℕ
  pub account_id : ℕ
  pub category_id : ℕ
  pub inbox_id : Option ℕ

abbrev pub new_row : ℕ → ℕ → NewTransaction → Transaction
new_row now u n = record {
  id = n.id;
  user_id = u;
  title = n.title;
  description = n.description;
  amount_cents = n.amount_cents;
  transaction_type = n.transaction_type;
  date = n.date;
  account_id = n.account_id;
  category_id = n.category_id;
  inbox_id = n.inbox_id;
  reconciliation_id = none;
  created_at = now;
  updated_at = now;
  version = 1;
  deleted_at = none;
}

-- The primary key is global: a row of another user takes the id too.
unfoldable pub insert_transaction_row : ℕ → NewTransaction → Exec Transaction
insert_transaction_row u n = do
  taken ← gets (λ db. exists (λ t. t.id == n.id) db.transactions)
  now ← gets (λ db. db.now)
  if taken then raise (conflict already_exists) else (do
    modify (λ db. record db { transactions = new_row db.now u n ∷ db.transactions })
    pure (new_row now u n))
