-- ===== src/Ledger/Balance/Effects.antt =====
-- The ledger rows that `create_transaction` inserts and that an UPDATE of one row replaces.
use expense_world_engine.Base.{
  ℕ, ◌≡◌, refl, ap, ◌==◌, Bool, true, Bool-cases, inl, inr, arith, none, some, List, ◌∷◌, find,
  exists, update_where,
}
use expense_world_engine.Base.Sums.{IsUnique, part, sum_by-select}
use expense_world_engine.Base.Replace.{find_same, sum_by-update_where}
use expense_world_engine.Schema.{Db, Transaction, TransactionSource, TransactionResponse, ledger}
use expense_world_engine.Schema.Tables
use expense_world_engine.Exec.{Exec, ◌>>=◌, ◌>>◌, pure, raise}
use expense_world_engine.Exec.Keeps.{Keeps, Keeps-gets, Keeps-raise_if, Keeps-raise_errors}
use expense_world_engine.Exec.Outcome.{
  Triple, Triple-bind, Triple-read, Triple-post, Triple-pure, Triple-frame,
}
use expense_world_engine.Query.{update_returning, update_rows, is_resolved}
use expense_world_engine.Validation.{db_now}
use expense_world_engine.Links.{fetch_hashtag_ids}
use expense_world_engine.Ledger.Requests.{TransactionCreateRequest}
use expense_world_engine.Ledger.Rows.{
  NewTransaction, new_row, insert_transaction_row, attach_hashtag_ids,
}
use expense_world_engine.Ledger.Create.{create_transaction, storage_form}
use expense_world_engine.Base.Int.{ℤ, ◌+ℤ◌}
use expense_world_engine.Ledger.Balance.{signed_cents, counts_for, balance_of}
use expense_world_engine.Ledger.Keeps.{
  SurvivesSideWrites, validate_active_account-Keeps, validate_active_category-Keeps,
  sync_if_any-Keeps, write_activity_log-Keeps,
}

-- A raise is rolled back by the caller, so nothing is asked of it here.
abbrev pub Any : Db → Type 0
Any db = Unit

abbrev pub Holds : List Transaction → Db → Type 0
Holds ts db = db.transactions ≡ ts

pub Holds-SurvivesSideWrites : (u : ℕ) (ts : List Transaction) → SurvivesSideWrites u (Holds ts)
Holds-SurvivesSideWrites u ts = record { links = λ js db h. h; log = λ e db own h. h }

module _ {P : Db → Type 0} where
  pub attach_hashtag_ids-Triple :
      (row : Transaction) (s : TransactionSource)
      → Triple P (attach_hashtag_ids row s) (λ response db. P db × (response.row ≡ row)) Any
  unfolding attach_hashtag_ids fetch_hashtag_ids ◌>>=◌ pure
  attach_hashtag_ids-Triple row s = record { run = λ db h. (h, refl) }

-- The INSERT.
pub insert_transaction_row-Triple :
    (u : ℕ) (n : NewTransaction) (ts : List Transaction)
    → Triple
        (Holds ts)
        (insert_transaction_row u n)
        (λ row db. Holds (row ∷ ts) db × ((now : ℕ) × (row ≡ new_row now u n)))
        Any
unfolding insert_transaction_row ◌>>=◌ pure raise
insert_transaction_row-Triple u n ts = record {
  run = λ db h. elim (Bool-cases (exists (λ t. t.id == n.id) db.transactions)) [
    | inl taken ↦ rw taken tt
    | inr fresh ↦ rw fresh (ap (λ l. new_row db.now u n ∷ l) h, (db.now, refl))
  ];
}

module _ {A : Type 0} {P : Db → Type 0} where
  pub read : {m : Exec A} → Keeps P m → Triple P m (λ _. P) Any
  read k = Triple-read (λ _ _. tt) k

-- The last steps of a write: the tags are read, the entry is logged, the response returned.
pub finish-Triple :
    {P : Db → Type 0} (row : Transaction) (k : TransactionResponse → Exec Unit)
    → ((response : TransactionResponse) → Keeps P (k response))
    → Triple P
        (attach_hashtag_ids row ledger >>= λ response. k response >> pure response)
        (λ response db. P db × (response.row ≡ row))
        Any
finish-Triple row k kept = Triple-bind (attach_hashtag_ids-Triple row ledger) λ response.
    Triple-bind (Triple-frame (read (kept response)))
      λ _. Triple-post (λ r db h. (h.0.0, rw h.1 h.0.1)) (Triple-pure (λ _ _. tt) response)

module _ (u : ℕ) (ts : List Transaction) where
  side : (rows : List Transaction) → SurvivesSideWrites u (Holds rows)
  side = Holds-SurvivesSideWrites u

  pub create_transaction-Triple :
      (body : TransactionCreateRequest) (allowed : Bool)
      → Triple
          (Holds ts)
          (create_transaction u body allowed)
          (λ response db.
            Holds (response.row ∷ ts) db
            × ((now : ℕ) × (response.row ≡ new_row now u (storage_form body))))
          Any
  unfolding create_transaction db_now
  create_transaction-Triple body allowed = Triple-bind (read (Keeps-gets _)) λ now.
      Triple-bind (read (Keeps-raise_errors _ _)) λ _.
        Triple-bind (read (validate_active_account-Keeps _ u)) λ _.
          Triple-bind (read (validate_active_category-Keeps _ u)) λ category.
            Triple-bind (read (Keeps-raise_if _ _)) λ _.
              Triple-bind (insert_transaction_row-Triple u _ ts) λ row.
                Triple-bind (Triple-frame (read (sync_if_any-Keeps (side (row ∷ ts)) _ _))) λ _.
                  Triple-post (λ r db h. (rw h.0.1 h.0.0, rw h.0.1 h.1))
                    (Triple-frame (
                      finish-Triple row _
                        (λ response. write_activity_log-Keeps (side (row ∷ ts)) _ _ _ _ _)))

-- What one row adds to the balance of account `a` of user `v`.
abbrev pub contribution : ℕ → ℕ → Transaction → ℤ
contribution v a = part (counts_for v a) signed_cents

-- Every balance loses what the old row added and gains what the new row adds.
abbrev pub Moves : List Transaction → Transaction → Transaction → List Transaction → Type 0
Moves ts before after ts' =
    (v a : ℕ)
    → balance_of v a ts' +ℤ contribution v a before ≡ balance_of v a ts +ℤ contribution v a after

module _ (u i : ℕ) (gone : Bool) (ts : List Transaction) (row : Transaction)
    (unique : IsUnique (λ (t : Transaction). t.id) ts)
    (found : find (is_resolved Tables.transactions i u gone) ts ≡ some row) where
  abbrev pub Moved : Transaction → Db → Type 0
  Moved after db = Moves ts row after db.transactions

  pub update_returning-Moved :
      (p : Transaction → Bool) (f : ℕ → Transaction → Transaction)
      → ((t : Transaction) → p t ≡ true → (t.id == i) ≡ true)
      → p row ≡ true
      → Triple
          (Holds ts)
          (update_returning Tables.transactions p f)
          (λ o db. (now : ℕ) × (Moved (f now row) db × (o ≡ some (f now row))))
          Any
  unfolding update_returning update_rows ◌>>=◌ pure balance_of
  update_returning-Moved p f by_id here = record {
    run = λ db h. (db.now, (moves db h, returned db h));
  }
    where
      by_key :
          (t : Transaction) → is_resolved Tables.transactions i u gone t ≡ true → (t.id == i) ≡ true
      by_key t e = ground (arith, e)

      moves :
          (db : Db)
          → Holds ts db
          → Moves ts row (f db.now row) (update_where p (f db.now) db.transactions)
      moves db h v a = rw h (
          rw (sum_by-select (counts_for v a) signed_cents (update_where p (f db.now) ts)) (
            rw (sum_by-select (counts_for v a) signed_cents ts) (
              sum_by-update_where (λ t. t.id) p (is_resolved Tables.transactions i u gone) i by_id
                by_key (contribution v a) (f db.now) ts row unique found here)))

      returned :
          (db : Db)
          → Holds ts db
          → elim (find p db.transactions) [ none ↦ none | some r ↦ some (f db.now r) ]
            ≡ some (f db.now row)
      returned db h = rw h (
          rw
            (find_same (λ t. t.id) p (is_resolved Tables.transactions i u gone) i by_id by_key ts
              row unique found here)
            refl)
