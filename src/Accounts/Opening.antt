-- ===== src/Accounts/Opening.antt =====
-- `create_opening_balance` of app/helpers/accounts.py, called again for the same account.
use expense_world_engine.Base.{
  ℕ, ◌≡◌, refl, sym, subst, ◌∙◌, ==_refl, true, false, Option, none, some, List, ◌∷◌, find, exists,
  find_holds, some-injective, arith,
}
use expense_world_engine.Base.Replace.{exists_found}
use expense_world_engine.Base.Int.{pos}
use expense_world_engine.Schema.{
  Db, Account, Category, Transaction, TransactionResponse, opening_balance,
}
use expense_world_engine.Exec.{
  err, ok, pure, raise, gets, for_some, conflict, has_opening_balance, seeding_raced, ◌>>=◌,
}
use expense_world_engine.Exec.Keeps.{Keeps}
use expense_world_engine.Exec.Outcome.{
  Triple, Triple-bind, Triple-gets, Triple-or_raise, Triple-raise_if, Triple-post, Triple-pre,
  Triple-exists, Triple-with, Triple-result, Triple-modify, Triple-weaken, Triple-if, Triple-pure,
}
use expense_world_engine.Validation.{is_active_account, active_account_row, validate_active_account}
use expense_world_engine.Ledger.Keeps.{SurvivesSideWrites, create_transaction-Keeps}
use expense_world_engine.Ledger.Rows.{new_row}
use expense_world_engine.Ledger.Create.{create_transaction, storage_form}
use expense_world_engine.Ledger.Balance.Effects.{Any, create_transaction-Triple}
use expense_world_engine.Named.{Casing}
use expense_world_engine.Categories.{
  is_system_category, fetch_system_category, seed_category, seed_or_reread, reread_seeded,
  ensure_system_category, new_category, default_name, default_color,
}
use expense_world_engine.References.Blind.{blind-SurvivesCategories}
use expense_world_engine.References.Keeps.{ensure_system_category-Keeps}
use expense_world_engine.Accounts.{
  OpeningBalanceRequest, opening_request, is_opening, is_opening_category, create_opening_balance,
}

-- The category is an active @Opening row.
abbrev HasOpening : ℕ → Db → Type 0
HasOpening k db = exists (is_opening_category k) db.categories ≡ true

module _ (c : Casing) (u : ℕ) where
  -- A row that is found by its key is one.
  found-HasOpening :
      (r : Category) (db : Db)
      → find (is_system_category u opening_balance) db.categories ≡ some r
      → HasOpening r.id db
  found-HasOpening r db e =
      exists_found (is_system_category u opening_balance) (is_opening_category r.id) db.categories r
        e
        (ground (
          arith,
          ==_refl r.id,
          find_holds (is_system_category u opening_balance) db.categories r e,
        ))

  -- What a read returns, beside what it read
  chosen-Triple :
      (o : Option Category)
      → Triple
          (λ db. Any db × (find (is_system_category u opening_balance) db.categories ≡ o))
          (for_some o (raise (conflict seeding_raced)) (λ r. pure r.id))
          HasOpening
          Any
  unfolding raise
  chosen-Triple none = record { run = λ db h. tt }
  chosen-Triple (some r) =
      Triple-post (λ k db h. subst (λ i. HasOpening i db) (sym h.1) (found-HasOpening r db h.0.1))
        (Triple-pure (λ _ _. tt) r.id)

  seeded-HasOpening :
      (now fresh : ℕ) (db : Db)
      → HasOpening fresh (record db {
        categories =
            new_category now u fresh
              (default_name opening_balance)
              default_color
              (some opening_balance)
              (pos 0)
            ∷ db.categories;
      })
  unfolding exists
  seeded-HasOpening now fresh db = ground (arith, ==_refl fresh)

  seed-Triple :
      (fresh : ℕ)
      → Triple Any
          (seed_category c u opening_balance fresh)
          (λ o db. (k : ℕ) → o ≡ some k → HasOpening k db)
          Any
  unfolding seed_category
  seed-Triple fresh = Triple-bind (Triple-gets (λ _ _. tt) _) λ seeded.
      Triple-bind (Triple-gets (λ _ _. tt) _) λ squatted.
        Triple-bind (Triple-gets (λ _ _. tt) _) λ now.
          Triple-if seeded (Triple-post (λ o db h k e. cc) (Triple-pure (λ _ _. tt) none)) (
            Triple-bind (Triple-raise_if (λ _ _. tt) squatted _) λ _.
              Triple-bind
                (Triple-weaken {E = HasOpening fresh} (λ _ _. tt)
                  (Triple-modify _ (λ db h. seeded-HasOpening now fresh db)))
                λ _.
                  Triple-post
                    (λ o db h k e.
                      subst (λ i. HasOpening i db) (some-injective _ _ (sym h.1 ∙ e)) h.0)
                    (Triple-pure (λ _ _. tt) (some fresh)))

  reread-Triple :
      (o : Option ℕ)
      → Triple
          (λ db. (k : ℕ) → o ≡ some k → HasOpening k db)
          (for_some o (reread_seeded u opening_balance) pure)
          HasOpening
          Any
  unfolding reread_seeded fetch_system_category
  reread-Triple none =
      Triple-pre (λ _ _. tt) (Triple-bind (Triple-gets (λ _ _. tt) _) chosen-Triple)
  reread-Triple (some k) =
      Triple-post (λ i db h. subst (λ x. HasOpening x db) (sym h.1) (h.0 k refl))
        (Triple-pure (λ _ _. tt) k)

  ensured-Triple :
      (fresh : ℕ) (o : Option Category)
      → Triple
          (λ db. Any db × (find (is_system_category u opening_balance) db.categories ≡ o))
          (for_some o (seed_or_reread c u opening_balance fresh) (λ r. pure r.id))
          HasOpening
          Any
  unfolding seed_or_reread
  ensured-Triple fresh none = Triple-pre (λ _ _. tt) (Triple-bind (seed-Triple fresh) reread-Triple)
  ensured-Triple fresh (some r) = chosen-Triple (some r)

  ensure-Triple :
      (fresh : ℕ) → Triple Any (ensure_system_category c u opening_balance fresh) HasOpening Any
  unfolding ensure_system_category fetch_system_category
  ensure-Triple fresh = Triple-bind (Triple-gets (λ _ _. tt) _) (ensured-Triple fresh)

  module _ (i : ℕ) where
    -- The account is active and is nobody's: a category or a ledger row does not change that.
    abbrev IsReal : Account → Db → Type 0
    IsReal account db =
        (find (is_active_account i u) db.accounts ≡ some account) × (account.is_person ≡ false)

    IsReal-side : (account : Account) → SurvivesSideWrites u (IsReal account)
    IsReal-side account = record { links = λ js db h. h; log = λ e db own h. h }

    -- The ledger row of an opening balance stands under its category.
    abbrev IsOpened : Db → Type 0
    IsOpened db = exists (is_opening db u i) db.transactions ≡ true

    opened :
        (now k : ℕ) (body : OpeningBalanceRequest) (row : Transaction) (ts : List Transaction)
        (db : Db)
        → row ≡ new_row now u (storage_form (opening_request i k body))
        → db.transactions ≡ row ∷ ts
        → HasOpening k db
        → IsOpened db
    unfolding exists
    opened now k body row ts db e h o = rw h (rw e (ground (arith, ==_refl u, ==_refl i, o)))

    HasOpening-Keeps :
        (k : ℕ) (account : Account) (body : OpeningBalanceRequest)
        → Keeps
            (λ db. HasOpening k db × IsReal account db)
            (create_transaction u (opening_request i k body) true)
    HasOpening-Keeps k account body =
        create_transaction-Keeps (record { links = λ js db h. h; log = λ e db own h. h })
          (λ n db fresh h. h) (opening_request i k body) true

    create-Triple :
        (k : ℕ) (account : Account) (body : OpeningBalanceRequest)
        → Triple
            (λ db. HasOpening k db × IsReal account db)
            (create_transaction u (opening_request i k body) true)
            (λ _ db. (a : Account) × (IsReal a db × IsOpened db))
            Any
    create-Triple k account body =
        Triple-pre (λ db h. (db.transactions, (refl, h)))
          (Triple-exists λ ts.
            Triple-post
              (λ r db h. (account, (h.1.1, opened h.0.1.0 k body r.row ts db h.0.1.1 h.0.0 h.1.0)))
              (Triple-with (create_transaction-Triple u ts (opening_request i k body) true)
                (HasOpening-Keeps k account body)))

    ensure-Keeps :
        (account : Account) (fresh : ℕ)
        → Keeps (IsReal account) (ensure_system_category c u opening_balance fresh)
    ensure-Keeps account fresh =
        ensure_system_category-Keeps (IsReal-side account)
          (blind-SurvivesCategories (IsReal account) u (λ db l h. h)) c opening_balance fresh

    opening-Triple :
        (body : OpeningBalanceRequest) (fresh : ℕ)
        → Triple Any
            (create_opening_balance c u i body fresh)
            (λ _ db. (a : Account) × (IsReal a db × IsOpened db))
            Any
    unfolding create_opening_balance validate_active_account active_account_row
    opening-Triple body fresh =
        Triple-bind
          (Triple-bind (Triple-gets (λ _ _. tt) _)
            λ o. Triple-post (λ a db h. h.0.1 ∙ h.1) (Triple-or_raise (λ _ _. tt) o _))
          λ account. Triple-bind (Triple-raise_if (λ _ _. tt) _ _) λ _.
            Triple-bind (Triple-gets (λ _ _. tt) _) λ existing.
              Triple-bind (Triple-raise_if (λ _ _. tt) existing _) λ _.
                Triple-bind
                  (Triple-pre (λ db h. (tt, (h.0.0.0, h.0.0.1)))
                    (Triple-with (ensure-Triple fresh) (ensure-Keeps account fresh)))
                  λ k. create-Triple k account body

-- An account has at most one opening balance: after one that returned, the next request for the
-- account is refused with a conflict, whatever it sends, and changes nothing.
pub create_opening_balance-again :
    (c : Casing) (u i : ℕ) (body again : OpeningBalanceRequest) (fresh other : ℕ) (db : Db)
    (response : TransactionResponse) (after : Db)
    → create_opening_balance c u i body fresh db ≡ (ok response, after)
    → create_opening_balance c u i again other after ≡ (err (conflict has_opening_balance), after)
unfolding create_opening_balance validate_active_account active_account_row gets pure raise ◌>>=◌
create_opening_balance-again c u i body again fresh other db response after e =
    let r = Triple-result (opening-Triple c u i body fresh) db response after tt e in
    rw r.1.0.0 (rw r.1.0.1 (rw r.1.1 refl))
