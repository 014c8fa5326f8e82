-- ===== src/Ledger/Balance/Moves.antt =====
-- `update_transaction`, `delete_transaction` and `restore_transaction` as the update of one row.
use expense_world_engine.Base.{
  ℕ, ◌≡◌, ◌==◌, Bool, true, false, arith, Option, some, List, [], find, find_holds, is_some,
}
use expense_world_engine.Base.Sums.{IsUnique}
use expense_world_engine.Schema.{Db, Transaction, TransactionResponse, Resource, ledger}
use expense_world_engine.Schema.Tables
use expense_world_engine.Exec.{Exec, AppError, ◌>>=◌, ◌>>◌, pure, or_raise, for_some}
use expense_world_engine.Exec.Keeps.{Keeps, Keeps-pure, Keeps-for_some}
use expense_world_engine.Exec.Outcome.{
  Triple, Triple-bind, Triple-post, Triple-pure, Triple-or_raise, Triple-frame, Triple-exists,
  Triple-fact,
}
use expense_world_engine.Query.{
  update_returning, is_resolved, is_owned, dynamic_update, soft_delete, fetch_owned_row_or_404,
}
use expense_world_engine.Query.Found.{fetch_owned_row_or_404-Triple}
use expense_world_engine.Ledger.Requests.{TransactionFields}
use expense_world_engine.Ledger.Rows.{attach_hashtag_ids}
use expense_world_engine.Ledger.Edit.{set_columns, update_nonempty, apply_update, when_sent}
use expense_world_engine.Links.{cascade_delete, cascade_restore, sync_hashtags}
use expense_world_engine.Ledger.Remove.{
  delete_transaction, close_transaction, restore_transaction, reopen_transaction, reopen,
}
use expense_world_engine.Ledger.Balance.Effects.{
  Any, Holds, Moves, Moved, update_returning-Moved, finish-Triple, read,
}
use expense_world_engine.Ledger.Keeps.{
  SurvivesSideWrites, write_activity_log-Keeps, attach_hashtag_ids-Keeps, check_field_lock-Keeps,
  check_assignment-Keeps, check_columns-Keeps, check_delete_lock-Keeps, check_prerequisites-Keeps,
  resolve_reconciliation-Keeps, sync-Keeps, close-Keeps, reopen-Keeps,
}

module _ (u i : ℕ) (gone : Bool) (ts : List Transaction) (row : Transaction)
    (unique : IsUnique (λ (t : Transaction). t.id) ts)
    (found : find (is_resolved Tables.transactions i u gone) ts ≡ some row) where
  Moved-SurvivesSideWrites :
      (after : Transaction) → SurvivesSideWrites u (Moved u i gone ts row unique found after)
  Moved-SurvivesSideWrites after = record { links = λ js db h. h; log = λ e db own h. h }

  -- The row that the service function fetches is that row.
  pub fetch_owned_row_or_404-same :
      Triple
        (Holds ts)
        (fetch_owned_row_or_404 Tables.transactions i u Resource.transaction gone)
        (λ r db. Holds ts db × (r ≡ row))
        Any
  fetch_owned_row_or_404-same =
      Triple-post (λ r db h. (h.0, same r db h.0 h.1))
        (fetch_owned_row_or_404-Triple Tables.transactions (λ _ _. tt) i u Resource.transaction
          gone)
    where
      same :
          (r : Transaction) (db : Db)
          → Holds ts db
          → find (is_resolved Tables.transactions i u gone) db.transactions ≡ some r
          → r ≡ row
      same r db h e = ground (arith, rw h at e, found)

  row_same :
      (r after_row t : Transaction) (o : Option Transaction)
      → r ≡ after_row
      → o ≡ some t
      → o ≡ some after_row
      → r ≡ t
  row_same r after_row t o e h k = ground (arith, e, h, k)

  -- The UPDATE of the row, then a rest that writes no ledger row, then the response.
  move-Triple :
      (p : Transaction → Bool) (f : ℕ → Transaction → Transaction)
      (middle : Transaction → Exec Unit) (k : TransactionResponse → Exec Unit) (e : AppError)
      → ((t : Transaction) → p t ≡ true → (t.id == i) ≡ true)
      → p row ≡ true
      → ((P : Db → Type 0) → SurvivesSideWrites u P → (t : Transaction) → Keeps P (middle t))
      → ((P : Db → Type 0) → SurvivesSideWrites u P → (r : TransactionResponse) → Keeps P (k r))
      → Triple
          (Holds ts)
          (update_returning Tables.transactions p f >>= λ o. or_raise o e >>= λ after_row.
            middle after_row
            >> (attach_hashtag_ids after_row ledger >>= λ response. k response >> pure response))
          (λ response db.
            (now : ℕ) × (Moves ts row response.row db.transactions × (response.row ≡ f now row)))
          Any
  move-Triple p f middle k e by_id here km kk =
      Triple-bind (update_returning-Moved u i gone ts row unique found p f by_id here) λ o.
        Triple-exists λ now. Triple-bind (Triple-or_raise (λ _ _. tt) o _) λ after_row.
          Triple-bind
            (Triple-frame
              (Triple-frame (read (km _ (Moved-SurvivesSideWrites (f now row)) after_row))))
            λ _.
              Triple-post
                (λ response db h.
                  let same = row_same response.row after_row (f now row) o h.0.0.1 h.0.1 h.1 in
                  (now, (rw same h.0.0.0, same)))
                (Triple-frame (
                  Triple-frame (
                    finish-Triple after_row k
                      (λ r. kk _ (Moved-SurvivesSideWrites (f now row)) r))))

  resolved : is_resolved Tables.transactions i u gone row ≡ true
  resolved = find_holds (is_resolved Tables.transactions i u gone) ts row found

abbrev pub IsResponse :
    Transaction
    → (ℕ → Transaction → Transaction)
    → List Transaction
    → TransactionResponse
    → Db
    → Type 0
IsResponse row f ts response db =
    (now : ℕ) × (Moves ts row response.row db.transactions × (response.row ≡ f now row))

-- The UPDATE of a PUT, of a DELETE, and of a restore.
abbrev pub edited : TransactionFields → Option (Option ℕ) → ℕ → Transaction → Transaction
edited f recon now r = Tables.transactions.touched now (set_columns f recon r)

abbrev pub closed : ℕ → Transaction → Transaction
closed now r = Tables.transactions.touched now (Tables.transactions.with_deleted (some now) r)

module _ (u i : ℕ) (ts : List Transaction) (row : Transaction)
    (unique : IsUnique (λ (t : Transaction). t.id) ts) where
  pub delete-Triple :
      find (is_resolved Tables.transactions i u false) ts ≡ some row
      → Triple (Holds ts) (delete_transaction u i) (IsResponse row closed ts) Any
  unfolding delete_transaction close_transaction soft_delete
  delete-Triple found = Triple-bind (fetch_owned_row_or_404-same u i false ts row unique found) λ r.
      Triple-bind (Triple-frame (read (check_delete_lock-Keeps u r))) λ _. Triple-fact λ same.
        Triple-bind (read (attach_hashtag_ids-Keeps r ledger)) λ before.
          move-Triple u i false ts row unique found _ _ (λ _. cascade_delete u i ledger []) _ _
            (λ t e. ground (arith, e)) (owned row (resolved u i false ts row unique found))
            (λ P survives t. close-Keeps survives i ledger [])
            (λ P survives response. write_activity_log-Keeps survives _ _ _ _ _)
    where
      owned :
          (t : Transaction)
          → is_resolved Tables.transactions i u false t ≡ true
          → is_owned Tables.transactions i u t ≡ true
      owned t e = ground (arith, e)

  pub update-Triple :
      find (is_resolved Tables.transactions i u false) ts ≡ some row
      → (f : TransactionFields) (ids : Option (List ℕ)) (recon : Option (Option ℕ))
      → Triple (Holds ts) (update_nonempty u i f ids recon) (IsResponse row (edited f recon) ts) Any
  unfolding update_nonempty apply_update dynamic_update
  update-Triple found f ids recon =
      Triple-bind (fetch_owned_row_or_404-same u i false ts row unique found) λ r.
        Triple-bind (Triple-frame (read (attach_hashtag_ids-Keeps r ledger))) λ before.
          Triple-bind (Triple-frame (read (check_field_lock-Keeps u r f _))) λ _.
            Triple-bind (Triple-frame (read (check_assignment-Keeps u r f recon))) λ _.
              Triple-bind (Triple-frame (read (check_columns-Keeps u f))) λ _. Triple-fact λ same.
                move-Triple u i false ts row unique found _ _
                  (λ _. when_sent ids (λ l. sync_hashtags u i l ledger)) _ _
                  (λ t e. ground (arith, e)) (resolved u i false ts row unique found)
                  (λ P survives t.
                    Keeps-for_some ids _ _ (Keeps-pure tt) (λ l. sync-Keeps survives i l ledger))
                  (λ P survives response. write_activity_log-Keeps survives _ _ _ _ _)

  pub restore-Triple :
      find (is_resolved Tables.transactions i u true) ts ≡ some row
      → Triple
          (Holds ts)
          (restore_transaction u i)
          (λ result db. (unlink : Bool) × IsResponse row (reopen unlink) ts result.0 db)
          Any
  unfolding restore_transaction reopen_transaction
  restore-Triple found = Triple-bind (fetch_owned_row_or_404-same u i true ts row unique found) λ r.
      Triple-bind (Triple-frame (read (check_prerequisites-Keeps u r))) λ _.
        Triple-bind (Triple-frame (read (resolve_reconciliation-Keeps u r))) λ w.
          Triple-fact λ same.
            Triple-bind
              (Triple-bind (read (attach_hashtag_ids-Keeps r ledger)) λ before.
                move-Triple u i true ts row unique found _ _
                  (λ _. for_some r.deleted_at (pure tt) (cascade_restore u i ledger)) _ _
                  (λ t e. ground (arith, e)) (owned row (resolved u i true ts row unique found))
                  (λ P survives t.
                    Keeps-for_some r.deleted_at _ _ (Keeps-pure tt)
                      (λ marker. reopen-Keeps survives i ledger marker))
                  (λ P survives response. write_activity_log-Keeps survives _ _ _ _ _))
              λ after.
                Triple-post (λ result db h. (is_some w, rw h.1 h.0)) (Triple-pure (λ _ _. tt) _)
    where
      owned :
          (t : Transaction)
          → is_resolved Tables.transactions i u true t ≡ true
          → is_owned Tables.transactions i u t ≡ true
      owned t e = ground (arith, e)
