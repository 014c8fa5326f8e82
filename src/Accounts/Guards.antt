-- ===== src/Accounts/Guards.antt =====
-- `delete_account` of app/helpers/accounts.py: its guard and what it protects.
use expense_world_engine.Base.{ℕ, ◌≡◌, refl, ◌∙◌, false, List, [], ◌∷◌, select, exists, arith}
use expense_world_engine.Base.Int.{pos}
use expense_world_engine.Base.Sums.{sum_by}
use expense_world_engine.Schema.{Db, Transaction, Resource, Snapshot, account_from_row}
use expense_world_engine.Schema.Tables
use expense_world_engine.Exec.{ok, pure}
use expense_world_engine.Exec.Keeps.{Keeps-pure}
use expense_world_engine.Exec.Outcome.{
  Triple, Triple-bind, Triple-gets, Triple-raise_if, Triple-read, Triple-pre, Triple-result,
}
use expense_world_engine.Query.{is_resolved}
use expense_world_engine.Query.Found.{fetch_owned_row_or_404-Triple}
use expense_world_engine.Ledger.Balance.{balance_of, counts_for}
use expense_world_engine.Ledger.Balance.Effects.{Any}
use expense_world_engine.Named
use expense_world_engine.Named.{Casing}
use expense_world_engine.Named.Closed.{soft_delete_with_audit-Closed}
use expense_world_engine.HomeBalance.{HomeBalance}
use expense_world_engine.Accounts.{books_on, snapshot, delete_account}
use expense_world_engine.References.Writes.{fetch_balance-Keeps, home_balance-Keeps}
use expense_world_engine.Accounts.Names.{accounts-Lawful}

-- Without active rows the balance is zero.
balance_of-unbooked :
    (u i : ℕ) (ts : List Transaction) → exists (books_on u i) ts ≡ false → balance_of u i ts ≡ pos 0
unfolding exists balance_of select sum_by
balance_of-unbooked u i [] h = refl
balance_of-unbooked u i (t ∷ ts) h = rw (uncounted h) (balance_of-unbooked u i ts (later h))
  where
    uncounted : exists (books_on u i) (t ∷ ts) ≡ false → counts_for u i t ≡ false
    uncounted k = ground (arith, k)

    later : exists (books_on u i) (t ∷ ts) ≡ false → exists (books_on u i) ts ≡ false
    later k = ground (arith, k)

module _ (c : Casing) (h : HomeBalance) (u i : ℕ) where
  abbrev Unbooked : Db → Type 0
  Unbooked db = exists (books_on u i) db.transactions ≡ false

  delete-Triple :
      Triple Any
        (delete_account c h u i)
        (λ _ after.
          Unbooked after × (exists (is_resolved Tables.accounts i u false) after.accounts ≡ false))
        Any
  unfolding delete_account
  delete-Triple =
      Triple-bind
        (fetch_owned_row_or_404-Triple Tables.accounts (λ _ _. tt) i u Resource.account false)
        λ row. Triple-bind (Triple-gets (λ _ _. tt) _) λ has_txns.
          Triple-bind (Triple-raise_if (λ _ _. tt) has_txns _) λ _.
            Triple-bind (Triple-read (λ _ _. tt) (fetch_balance-Keeps u i)) λ balance.
              Triple-bind (Triple-read (λ _ _. tt) (home_balance-Keeps h u _ balance)) λ home.
                Triple-pre (λ d k. (k.0.1 ∙ k.1, k.0.0.1))
                  (soft_delete_with_audit-Closed Named.accounts accounts-Lawful Unbooked
                    (λ d rs g. g) (λ d es g. g) u i Resource.account row
                    (λ r. pure (snapshot (account_from_row r balance home))) (λ Q r. Keeps-pure _))

-- A delete that returns strands no money: no active transaction of the user books on the account,
-- its balance is zero, and no active account of the user has the id.
pub delete_account-balance_of :
    (c : Casing) (h : HomeBalance) (u i : ℕ) (db : Db) (s : Snapshot) (after : Db)
    → delete_account c h u i db ≡ (ok s, after)
    → (exists (books_on u i) after.transactions ≡ false)
      × ((balance_of u i after.transactions ≡ pos 0)
          × (exists (is_resolved Tables.accounts i u false) after.accounts ≡ false))
delete_account-balance_of c h u i db s after e =
    let r = Triple-result (delete-Triple c h u i) db s after tt e in
    (r.0, (balance_of-unbooked u i after.transactions r.0, r.1))
