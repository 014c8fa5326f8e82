-- ===== src/Ledger/Edit.antt =====
-- `update_transaction`, in the order of its steps.
use expense_world_engine.Base.{
  ℕ, Bool, false, not, ◌&&◌, Option, none, some, List, [], ◌∷◌, ◌++◌, find, ltb, ◌==◌, is_none,
  is_some, or_else, if◌then◌else◌,
}
use expense_world_engine.Base.Int.{ℤ, abs}
use expense_world_engine.Schema.{
  Transaction, Reconciliation, TransactionResponse, updated, ledger, Resource, Snapshot,
}
use expense_world_engine.Schema.Tables
use expense_world_engine.Exec.{
  Exec, Field, Msg, title, amount_cents, date, account_id, category_id, reconciliation_id,
  not_future, user_category, locked_by_completed, must_be_active_reconciliation, account_mismatch,
  assign_to_completed, validation_failed, validation_error, not_found, pure, gets, raise_if,
  raise_errors, or_raise, for_some, ◌>>=◌, ◌>>◌,
}
use expense_world_engine.Text.{clean_name}
use expense_world_engine.Query.{fetch_owned_row_or_404, dynamic_update, write_activity_log}
use expense_world_engine.Validation.{
  flag, db_now, normalize_name, reject_zero_amount, validate_active_account,
  validate_active_category,
}
use expense_world_engine.Links.{sync_hashtags}
use expense_world_engine.Ledger.Requests.{TransactionFields, is_empty, infer_transaction_type}
use expense_world_engine.Ledger.Rows.{
  is_completed, is_reconciliation, fetch_recon_status, attach_hashtag_ids,
}

-- `locked & fields.keys()`, and the assignment itself
unfoldable pub attempted : TransactionFields → Bool → List (Field × Msg)
attempted f recon_id_provided =
    flag (is_some f.amount_cents) amount_cents locked_by_completed
    ++ (flag (is_some f.account_id) account_id locked_by_completed
        ++ (flag (is_some f.title) title locked_by_completed
            ++ (flag (is_some f.date) date locked_by_completed
                ++ flag recon_id_provided reconciliation_id locked_by_completed)))

-- `recon and recon["status"] == COMPLETED`
abbrev pub is_locking : Option Reconciliation → Bool
is_locking none = false
is_locking (some r) = is_completed r

unfoldable pub check_field_lock : ℕ → Transaction → TransactionFields → Bool → Exec Unit
check_field_lock u row f recon_id_provided = for_some row.reconciliation_id (pure tt) λ rid. do
  recon ← fetch_recon_status u rid
  raise_errors validation_failed (if is_locking recon then attempted f recon_id_provided else [])

-- WHERE id = $1 AND user_id = $2 AND deleted_at IS NULL
abbrev pub is_active_reconciliation : ℕ → ℕ → Reconciliation → Bool
is_active_reconciliation i u r = is_reconciliation i u r && is_none r.deleted_at

unfoldable pub check_assignment :
    ℕ → Transaction → TransactionFields → Option (Option ℕ) → Exec Unit
check_assignment u row f recon_id = for_some (or_else recon_id none) (pure tt) λ rid. do
  found ← gets (λ db. find (is_active_reconciliation rid u) db.reconciliations)
  recon ←
      or_raise found (
        validation_error validation_failed
          ((reconciliation_id, must_be_active_reconciliation) ∷ []))
  raise_if (not (recon.account_id == or_else f.account_id row.account_id))
      (validation_error validation_failed ((reconciliation_id, account_mismatch) ∷ []))
  raise_if (is_completed recon)
      (validation_error validation_failed ((reconciliation_id, assign_to_completed) ∷ []))

-- `if key in fields: check(fields[key])`
abbrev pub when_sent : {A : Type 0} → Option A → (A → Exec Unit) → Exec Unit
when_sent o check = for_some o (pure tt) check

abbrev check_category : ℕ → ℕ → Exec Unit
check_category u i = do
  category ← validate_active_category i u
  raise_if (is_some category.system_key)
      (validation_error validation_failed ((category_id, user_category) ∷ []))

abbrev check_date : ℕ → Exec Unit
check_date d = do
  now ← db_now
  raise_if (ltb now d) (validation_error validation_failed ((date, not_future) ∷ []))

unfoldable pub check_columns : ℕ → TransactionFields → Exec Unit
check_columns u f = do
  when_sent f.amount_cents (λ v. reject_zero_amount v amount_cents)
  when_sent f.account_id (λ i. validate_active_account i u >> pure tt)
  when_sent f.category_id (check_category u)
  when_sent f.title (λ t. normalize_name t title >> pure tt)
  when_sent f.date check_date

-- The SET list: `amount_cents` brings the derived type, the title is stripped, and the
-- reconciliation rides along if it was sent.
abbrev pub set_amount : Option ℤ → Transaction → Transaction
set_amount none r = r
set_amount (some v) r = record r {
  amount_cents = abs v;
  transaction_type = infer_transaction_type v;
}

abbrev pub set_columns : TransactionFields → Option (Option ℕ) → Transaction → Transaction
set_columns f recon r = set_amount f.amount_cents (record r {
  title = elim f.title [ none ↦ r.title | some t ↦ or_else (clean_name (some t)) [] ];
  date = or_else f.date r.date;
  account_id = or_else f.account_id r.account_id;
  category_id = or_else f.category_id r.category_id;
  description = elim f.description [ none ↦ r.description | some d ↦ some d ];
  reconciliation_id = or_else recon r.reconciliation_id;
})

-- The UPDATE, the tags and the log.
unfoldable pub apply_update :
    ℕ
    → ℕ
    → TransactionFields
    → Option (List ℕ)
    → Option (Option ℕ)
    → TransactionResponse
    → Exec TransactionResponse
apply_update u i f hashtag_ids recon before = do
  changed ← dynamic_update Tables.transactions (set_columns f recon) i u
  after_row ← or_raise changed (not_found Resource.transaction)
  when_sent hashtag_ids (λ ids. sync_hashtags u i ids ledger)
  after ← attach_hashtag_ids after_row ledger
  write_activity_log u Resource.transaction i updated (some (Snapshot.transaction before))
      (some (Snapshot.transaction after))
  pure after

unfoldable pub update_nonempty :
    ℕ → ℕ → TransactionFields → Option (List ℕ) → Option (Option ℕ) → Exec TransactionResponse
update_nonempty u i f hashtag_ids recon = do
  before_row ← fetch_owned_row_or_404 Tables.transactions i u Resource.transaction false
  before ← attach_hashtag_ids before_row ledger
  check_field_lock u before_row f (is_some recon)
  check_assignment u before_row f recon
  check_columns u f
  apply_update u i f hashtag_ids recon before

unfoldable pub fetch_unchanged : ℕ → ℕ → Exec TransactionResponse
fetch_unchanged u i = do
  row ← fetch_owned_row_or_404 Tables.transactions i u Resource.transaction false
  attach_hashtag_ids row ledger

-- `recon` is the sent `reconciliation_id`: `none` was omitted, `some none` unassigns.
unfoldable pub update_transaction :
    ℕ → ℕ → TransactionFields → Option (List ℕ) → Option (Option ℕ) → Exec TransactionResponse
update_transaction u i f hashtag_ids recon =
    if is_empty f && (is_none hashtag_ids && is_none recon)
    then fetch_unchanged u i
    else update_nonempty u i f hashtag_ids recon
