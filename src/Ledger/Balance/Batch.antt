-- ===== src/Ledger/Balance/Batch.antt =====
-- The balance of app/helpers/account_balance.py across `create_batch` of
-- app/helpers/transactions.py.
use expense_world_engine.Base.{
  ℕ, ◌≡◌, refl, sym, ap, ◌∙◌, ◌==◌, List, [], ◌∷◌, ◌&&◌, if◌then◌else◌, arith,
}
use expense_world_engine.Base.Int.{ℤ, pos, ◌+ℤ◌, zero-+ℤ, +ℤ_regroup}
use expense_world_engine.Base.Sums.{sum_by}
use expense_world_engine.Schema.{Db, Transaction, TransactionResponse}
use expense_world_engine.Exec.{ok, raise}
use expense_world_engine.Exec.Keeps.{
  Keeps-gets, Keeps-if, Keeps-raise, Keeps-pure, Keeps-seq, Keeps-bind,
}
use expense_world_engine.Exec.Outcome.{
  Triple, Triple-bind, Triple-post, Triple-pure, Triple-fact, Triple-result,
}
use expense_world_engine.Ledger.Requests.{TransactionCreateRequest}
use expense_world_engine.Ledger.Rows.{new_row}
use expense_world_engine.Ledger.Create.{storage_form, insert_items, create_batch}
use expense_world_engine.Ledger.Keeps.{
  SurvivesSideWrites, sync_if_any-Keeps, attach_all-Keeps, log_all-Keeps,
}
use expense_world_engine.Ledger.Balance.{balance_of}
use expense_world_engine.Ledger.Balance.Effects.{
  Any, Holds, Holds-SurvivesSideWrites, contribution, read, insert_transaction_row-Triple,
}
use expense_world_engine.Ledger.Balance.Changes.{balance_of-cons, signed-infer_transaction_type}

-- What a request adds to the balance of account `a` of user `v`, when user `u` sends it.
abbrev pub requested_cents : ℕ → ℕ → ℕ → TransactionCreateRequest → ℤ
requested_cents u v a item = if u == v && item.account_id == a then item.amount_cents else pos 0

contribution-new_row :
    (u v a now : ℕ) (item : TransactionCreateRequest)
    → contribution v a (new_row now u (storage_form item)) ≡ requested_cents u v a item
contribution-new_row u v a now item =
    rw (signed-infer_transaction_type item.amount_cents) (ground arith)

module _ (u : ℕ) where
  -- Every balance of `ts` under the amounts of the items.
  abbrev Added : List TransactionCreateRequest → List Transaction → Db → Type 0
  Added items ts db =
      (v a : ℕ)
      → balance_of v a db.transactions ≡ sum_by (requested_cents u v a) items +ℤ balance_of v a ts

  insert_items-Triple :
      (items : List TransactionCreateRequest) (ts : List Transaction)
      → Triple (Holds ts) (insert_items u items) (λ _. Added items ts) Any
  unfolding insert_items sum_by
  insert_items-Triple [] ts =
      Triple-post (λ _ db h v a. rw h.0 (sym (zero-+ℤ (balance_of v a ts))))
        (Triple-pure (λ _ _. tt) _)
  insert_items-Triple (item ∷ items) ts =
      Triple-bind (insert_transaction_row-Triple u (storage_form item) ts) λ row.
        Triple-fact λ made.
          Triple-bind (read (sync_if_any-Keeps (Holds-SurvivesSideWrites u (row ∷ ts)) _ _)) λ _.
            Triple-bind (insert_items-Triple items (row ∷ ts)) λ rows.
              Triple-post
                (λ _ db h v a.
                  h.0 v a
                  ∙ ap (λ n. sum_by (requested_cents u v a) items +ℤ n) (step row made v a)
                  ∙ +ℤ_regroup (requested_cents u v a item) (sum_by (requested_cents u v a) items)
                      (balance_of v a ts))
                (Triple-pure (λ _ _. tt) _)
    where
      step :
          (row : Transaction)
          → ((now : ℕ) × (row ≡ new_row now u (storage_form item)))
          → (v a : ℕ) → balance_of v a (row ∷ ts) ≡ requested_cents u v a item +ℤ balance_of v a ts
      step row made v a =
          balance_of-cons v a row ts
          ∙ ap (λ n. n +ℤ balance_of v a ts) (rw made.1 (contribution-new_row u v a made.0 item))

  Added-SurvivesSideWrites :
      (items : List TransactionCreateRequest) (ts : List Transaction)
      → SurvivesSideWrites u (Added items ts)
  Added-SurvivesSideWrites items ts = record { links = λ js db h. h; log = λ e db own h. h }

  create_batch-Triple :
      (items : List TransactionCreateRequest) (ts : List Transaction)
      → Triple (Holds ts) (create_batch u items) (λ _. Added items ts) Any
  unfolding create_batch raise
  create_batch-Triple [] ts = record { run = λ db h. tt }
  create_batch-Triple (item ∷ items) ts = Triple-bind (read (Keeps-gets _)) λ errors.
      Triple-bind (read (Keeps-if _ _ _ (Keeps-raise _) (Keeps-pure tt))) λ _.
        Triple-bind (insert_items-Triple (item ∷ items) ts) λ rows. read (
          Keeps-bind _ _ (attach_all-Keeps rows) λ responses.
            Keeps-seq _ _ (log_all-Keeps (Added-SurvivesSideWrites (item ∷ items) ts) responses)
              (Keeps-pure responses))

-- A batch that returns adds to every balance the signed amounts of its items for that account, and
-- nothing to the balances of other users.
pub create_batch-balance_of :
    (u : ℕ) (items : List TransactionCreateRequest) (db : Db) (responses : List TransactionResponse)
    (after : Db)
    → create_batch u items db ≡ (ok responses, after)
    → (v a : ℕ)
    → balance_of v a after.transactions
      ≡ sum_by (requested_cents u v a) items +ℤ balance_of v a db.transactions
create_batch-balance_of u items db responses after e =
    Triple-result (create_batch-Triple u items db.transactions) db responses after refl e
