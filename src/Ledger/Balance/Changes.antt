-- ===== src/Ledger/Balance/Changes.antt =====
-- The balance of app/helpers/account_balance.py across the calls of app/helpers/transactions.py.
use expense_world_engine.Base.{
  ℕ, ◌≡◌, refl, sym, ◌∙◌, ap, ◌==◌, Bool, true, false, Bool-cases, inl, inr, arith, Option, none,
  some, List, ◌∷◌, find, find_holds, is_none, or_else, ◌&&◌, if◌then◌else◌,
}
use expense_world_engine.Base.Int.{ℤ, pos, negsuc, abs, ◌+ℤ◌, +ℤ-zero}
use expense_world_engine.Base.Sums.{IsUnique, sum_by, sum_by-select}
use expense_world_engine.Schema.{Db, Transaction, TransactionResponse, ledger}
use expense_world_engine.Schema.Tables
use expense_world_engine.Exec.{ok}
use expense_world_engine.Exec.Outcome.{
  Triple, Triple-bind, Triple-post, Triple-frame, Triple-result,
}
use expense_world_engine.Query.{is_resolved}
use expense_world_engine.Ledger.Requests.{
  TransactionCreateRequest, TransactionFields, is_empty, infer_transaction_type,
}
use expense_world_engine.Ledger.Create.{create_transaction}
use expense_world_engine.Ledger.Edit.{set_amount, set_columns, update_transaction, fetch_unchanged}
use expense_world_engine.Ledger.Remove.{reopen, delete_transaction, restore_transaction, Warning}
use expense_world_engine.Ledger.Balance.{balance_of, signed, signed_cents, counts_for}
use expense_world_engine.Ledger.Balance.Effects.{
  Any, Holds, contribution, create_transaction-Triple, attach_hashtag_ids-Triple,
}
use expense_world_engine.Ledger.Balance.Moves.{
  edited, fetch_owned_row_or_404-same, delete-Triple, update-Triple, restore-Triple,
}

-- The sign of a request and the stored type and magnitude carry the same number.
pub signed-infer_transaction_type : (v : ℤ) → signed (infer_transaction_type v) (abs v) ≡ v
unfolding infer_transaction_type
signed-infer_transaction_type (pos n) = ap pos (omega arith)
signed-infer_transaction_type (negsuc n) = ground arith

pub balance_of-cons :
    (v a : ℕ) (t : Transaction) (ts : List Transaction)
    → balance_of v a (t ∷ ts) ≡ contribution v a t +ℤ balance_of v a ts
unfolding balance_of sum_by
balance_of-cons v a t ts =
    sum_by-select (counts_for v a) signed_cents (t ∷ ts)
    ∙ ap (λ n. contribution v a t +ℤ n) (sym (sum_by-select (counts_for v a) signed_cents ts))

contribution-deleted :
    (v a : ℕ) (t : Transaction) → is_none t.deleted_at ≡ false → contribution v a t ≡ pos 0
contribution-deleted v a t h = ground (arith, h)

-- A create that returns adds the signed amount of its request to the balance of the request's
-- account, and changes no other balance of any user.
pub create_transaction-balance_of :
    (u : ℕ) (body : TransactionCreateRequest) (allowed : Bool) (db : Db)
    (response : TransactionResponse) (after : Db)
    → create_transaction u body allowed db ≡ (ok response, after)
    → (v a : ℕ)
    → balance_of v a after.transactions
      ≡ (if u == v && body.account_id == a then body.amount_cents else pos 0)
        +ℤ balance_of v a db.transactions
create_transaction-balance_of u body allowed db response after e v a =
    let h =
      Triple-result (create_transaction-Triple u db.transactions body allowed) db response after
        refl e in
    rw h.0 (
      balance_of-cons v a response.row db.transactions
      ∙ ap (λ n. n +ℤ balance_of v a db.transactions)
          (rw h.1.1 (rw (signed-infer_transaction_type body.amount_cents) (ground arith))))

-- What a PUT asks a row of user `u` to count for: the signed amount that it sends, or else the one
-- that the row has, on the account that it sends, or else the row's own.
abbrev pub requested : ℕ → TransactionFields → Transaction → ℕ → ℕ → ℤ
requested u f row v a =
    if u == v && or_else f.account_id row.account_id == a
    then or_else f.amount_cents (signed_cents row)
    else pos 0

by_amount :
    (o : Option ℤ) (now : ℕ) (r : Transaction) (v a : ℕ)
    → contribution v a (Tables.transactions.touched now (set_amount o r))
      ≡ (if counts_for v a r then or_else o (signed_cents r) else pos 0)
by_amount none now r v a = refl
by_amount (some x) now r v a = rw (signed-infer_transaction_type x) refl

owner_of :
    (u i : ℕ) (gone : Bool) (row : Transaction)
    → is_resolved Tables.transactions i u gone row ≡ true
    → row.user_id ≡ u
owner_of u i gone row here = ground (arith, here)

if_active : (b : Bool) (n : ℤ) → (if b && true then n else pos 0) ≡ (if b then n else pos 0)
if_active true n = refl
if_active false n = refl

is_active :
    (u i : ℕ) (row : Transaction)
    → is_resolved Tables.transactions i u false row ≡ true
    → is_none row.deleted_at ≡ true
is_active u i row e = ground (arith, e)

contribution-edited :
    (u i : ℕ) (f : TransactionFields) (recon : Option (Option ℕ)) (now : ℕ) (row : Transaction)
    (v a : ℕ)
    → is_resolved Tables.transactions i u false row ≡ true
    → contribution v a (edited f recon now row) ≡ requested u f row v a
contribution-edited u i f recon now row v a here =
    by_amount f.amount_cents now (set_columns (record f { amount_cents = none }) recon row) v a
    ∙ rw (owner_of u i false row here) (
        rw (is_active u i row here) (
          if_active (u == v && or_else f.account_id row.account_id == a)
            (or_else f.amount_cents (signed_cents row))))

-- What a restored row of user `u` counts for: its signed amount, on its account.
abbrev pub regained : ℕ → Transaction → ℕ → ℕ → ℤ
regained u row v a = if u == v && row.account_id == a then signed_cents row else pos 0

contribution-reopen :
    (u i : ℕ) (unlink : Bool) (now : ℕ) (row : Transaction) (v a : ℕ)
    → is_resolved Tables.transactions i u true row ≡ true
    → contribution v a (reopen unlink now row) ≡ regained u row v a
contribution-reopen u i unlink now row v a here =
    rw (owner_of u i true row here) (if_active _ (signed_cents row))

not_sent : {A : Type 0} (o : Option A) → is_none o ≡ true → o ≡ none
not_sent none h = refl
not_sent (some x) h = absurd (ground (arith, h))

-- An empty PUT asks for what the row counts for.
contribution-unasked :
    (u i : ℕ) (f : TransactionFields) (row : Transaction) (v a : ℕ)
    → is_empty f ≡ true
    → is_resolved Tables.transactions i u false row ≡ true
    → contribution v a row ≡ requested u f row v a
contribution-unasked u i f row v a k here =
    rw (not_sent f.amount_cents (ground (arith, k)), not_sent f.account_id (ground (arith, k)))
      (rw (owner_of u i false row here) (
        rw (is_active u i row here) (if_active (u == v && row.account_id == a) (signed_cents row))))

module _ (u i : ℕ) (db : Db) (row : Transaction)
    (unique : IsUnique (λ (t : Transaction). t.id) db.transactions) where
  -- A PUT that returns takes out of every balance what the stored row counted for, and adds to it
  -- what its fields ask for: the signed amount that was sent, or else the stored one, on the account
  -- that was sent, or else the stored one. Ledger ids are unique, and the row is the active one of
  -- the user that has the id.
  pub update_transaction-balance_of :
      find (is_resolved Tables.transactions i u false) db.transactions ≡ some row
      → (f : TransactionFields) (ids : Option (List ℕ)) (recon : Option (Option ℕ))
        (response : TransactionResponse) (after : Db)
      → update_transaction u i f ids recon db ≡ (ok response, after)
      → (v a : ℕ)
      → balance_of v a after.transactions +ℤ contribution v a row
        ≡ balance_of v a db.transactions +ℤ requested u f row v a
  unfolding update_transaction fetch_unchanged
  update_transaction-balance_of found f ids recon response after e v a =
      elim (Bool-cases (is_empty f && (is_none ids && is_none recon))) [
        | inl k ↦
            unchanged (ground (arith, k))
              (Triple-result fetch_unchanged-Triple db response after refl (rw k at e))
        | inr k ↦
            let h =
              Triple-result (update-Triple u i db.transactions row unique found f ids recon) db
                response after refl (rw k at e) in
            h.1.0 v a
            ∙ ap (λ n. balance_of v a db.transactions +ℤ n)
                (ap (contribution v a) h.1.1 ∙ contribution-edited u i f recon h.0 row v a here)
      ]
    where
      here : is_resolved Tables.transactions i u false row ≡ true
      here = find_holds (is_resolved Tables.transactions i u false) db.transactions row found

      unchanged :
          is_empty f ≡ true
          → Holds db.transactions after × (response.row ≡ row)
          → balance_of v a after.transactions +ℤ contribution v a row
            ≡ balance_of v a db.transactions +ℤ requested u f row v a
      unchanged k h = rw h.0 (
          ap (λ n. balance_of v a db.transactions +ℤ n) (contribution-unasked u i f row v a k here))

      fetch_unchanged-Triple :
          Triple
            (Holds db.transactions)
            (fetch_unchanged u i)
            (λ r after. Holds db.transactions after × (r.row ≡ row))
            Any
      fetch_unchanged-Triple =
          Triple-bind (fetch_owned_row_or_404-same u i false db.transactions row unique found) λ r.
            Triple-post (λ r' after h. (h.0.0, h.0.1 ∙ h.1))
              (Triple-frame (attach_hashtag_ids-Triple r ledger))

  -- A delete that returns takes out of the balances what the row counted for. Ledger ids are unique,
  -- and the row is the active one that has the id.
  pub delete_transaction-balance_of :
      find (is_resolved Tables.transactions i u false) db.transactions ≡ some row
      → (response : TransactionResponse) (after : Db)
      → delete_transaction u i db ≡ (ok response, after)
      → (v a : ℕ)
      → balance_of v a after.transactions +ℤ contribution v a row ≡ balance_of v a db.transactions
  delete_transaction-balance_of found response after e v a =
      let h =
        Triple-result (delete-Triple u i db.transactions row unique found) db response after refl
          e in
      h.1.0 v a
      ∙ ap (λ n. balance_of v a db.transactions +ℤ n)
          (contribution-deleted v a response.row (rw h.1.1 refl))
      ∙ +ℤ-zero (balance_of v a db.transactions)

  -- A restore that returns adds the signed amount of the row to the balance of its account, and
  -- changes no other balance. Ledger ids are unique, and the row is the deleted one of the user that
  -- has the id.
  pub restore_transaction-balance_of :
      find (is_resolved Tables.transactions i u true) db.transactions ≡ some row
      → (result : TransactionResponse × List Warning) (after : Db)
      → restore_transaction u i db ≡ (ok result, after)
      → (v a : ℕ)
      → balance_of v a after.transactions ≡ balance_of v a db.transactions +ℤ regained u row v a
  restore_transaction-balance_of found result after e v a =
      let h =
        Triple-result (restore-Triple u i db.transactions row unique found) db result after refl
          e in
      sym (+ℤ-zero (balance_of v a after.transactions))
      ∙ ap (λ n. balance_of v a after.transactions +ℤ n)
          (sym (
            contribution-deleted v a row (
              gone
                (find_holds (is_resolved Tables.transactions i u true) db.transactions row found))))
      ∙ h.1.1.0 v a
      ∙ ap (λ n. balance_of v a db.transactions +ℤ n)
          (ap (contribution v a) h.1.1.1
            ∙ contribution-reopen u i h.0 h.1.0 row v a
                (find_holds (is_resolved Tables.transactions i u true) db.transactions row found))
    where
      gone : is_resolved Tables.transactions i u true row ≡ true → is_none row.deleted_at ≡ false
      gone k = ground (arith, k)
