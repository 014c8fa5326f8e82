-- ===== src/References/Sealed.antt =====
-- A completed reconciliation under every call: those of app/routers/transactions.py, inbox.py and
-- reconciliations.py, and those on accounts, people, categories and hashtags.
use expense_world_engine.Base.{ℕ, ◌≢◌, refl, List, [], ◌∷◌, All}
use expense_world_engine.Base.Int.{ℤ}
use expense_world_engine.Base.Rows.{Alike}
use expense_world_engine.Schema.{Db, Transaction}
use expense_world_engine.Schema.Tables.{Table}
use expense_world_engine.Schema.Tables
use expense_world_engine.Exec.Keeps.{Keeps, Keeps-modify}
use expense_world_engine.Named.{Casing}
use expense_world_engine.HomeBalance.{HomeBalance}
use expense_world_engine.Hashtags.{bump_parents, is_any_of}
use expense_world_engine.Reconciliations.{is_assigned}
use expense_world_engine.Reconciliations.Sealed.{
  LockedPart, locked_part, IsSealed, update_rows-IsSealed,
}
use expense_world_engine.Calls
use expense_world_engine.Calls.Sealed
use expense_world_engine.Calls.Sealed.Serve as Ledger
use expense_world_engine.Calls.Sealed.Transitions
use expense_world_engine.References.{Call, serve}
use expense_world_engine.References.Writes.{SurvivesReferences}
use expense_world_engine.References.Blind.{
  IsBlindTo, blind-SurvivesAccounts, blind-SurvivesCategories, blind-SurvivesHashtags,
  bump_parents-IsBlind,
}
use expense_world_engine.References.Serve.{serve-Keeps}

-- A write call of either kind
pub data AnyCall : Type 0 where
  on_ledger : Calls.Call → AnyCall
  on_references : Call → AnyCall

unfoldable pub serve_any : Casing → HomeBalance → ℕ → List AnyCall → Db → Db
serve_any c h u [] db = db
serve_any c h u (on_ledger call ∷ calls) db = serve_any c h u calls (Calls.serve u call db).1
serve_any c h u (on_references call ∷ calls) db = serve_any c h u calls (serve c h u call db).1

-- The call is not the revert of this reconciliation.
abbrev pub IsOther : ℕ → AnyCall → Type 0
IsOther rid (on_ledger call) = call ≢ Calls.Call.revert_reconciliation rid
IsOther rid (on_references call) = Unit

module _ (rid u : ℕ) (beginning ending : ℤ) (rows : List LockedPart) where
  abbrev S : Db → Type 0
  S = IsSealed rid u beginning ending rows

  -- A touched row of the ledger counts for what it counted.
  touched-Alike :
      (now : ℕ) (t : Transaction)
      → Alike (is_assigned rid u) locked_part (Tables.transactions.touched now t) t
  touched-Alike now t = record { chosen = refl; seen = λ _. refl }

  bump-IsSealed : (ids : List ℕ) → Keeps S (bump_parents Tables.transactions u ids)
  unfolding bump_parents
  bump-IsSealed ids = Keeps-modify _ λ db h.
      update_rows-IsSealed rid u beginning ending (is_any_of Tables.transactions ids u)
        Tables.transactions.touched db (λ t. refl) (λ t k. touched-Alike db.now t) h

  inbox-IsBlind : IsBlindTo S Tables.inbox
  inbox-IsBlind db l h = record {
    unique = h.unique;
    present = h.present;
    sealed = h.sealed;
    assigned = h.assigned;
  }

  Sealed-SurvivesReferences : SurvivesReferences u S
  Sealed-SurvivesReferences = record {
    side = Sealed.Seal-SurvivesSideWrites rid u beginning ending rows;
    insert_transaction = Transitions.insert_transaction-IsSealed rid u beginning ending rows;
    on_accounts = blind-SurvivesAccounts S u λ db l h. record {
      unique = h.unique;
      present = h.present;
      sealed = h.sealed;
      assigned = h.assigned;
    };
    on_categories = blind-SurvivesCategories S u λ db l h. record {
      unique = h.unique;
      present = h.present;
      sealed = h.sealed;
      assigned = h.assigned;
    };
    on_hashtags =
        blind-SurvivesHashtags S u
          (λ db l h. record {
            unique = h.unique;
            present = h.present;
            sealed = h.sealed;
            assigned = h.assigned;
          })
          bump-IsSealed (λ ids. bump_parents-IsBlind S Tables.inbox u ids inbox-IsBlind);
  }

-- Any history of write calls by the owner, on the ledger, the inbox and the reconciliations as on
-- accounts, people, categories and hashtags, none of which reverts the reconciliation, keeps it
-- completed and active with its two balances, and keeps which transactions are assigned to it,
-- their titles, dates, accounts, types and amounts; ledger ids are assumed unique.
pub serve_any-IsSealed :
    (c : Casing) (h : HomeBalance) (rid u : ℕ) (beginning ending : ℤ) (rows : List LockedPart)
    (calls : List AnyCall) (db : Db)
    → All (IsOther rid) calls
    → IsSealed rid u beginning ending rows db
    → IsSealed rid u beginning ending rows (serve_any c h u calls db)
unfolding serve_any
serve_any-IsSealed c h rid u beginning ending rows [] db others k = k
serve_any-IsSealed c h rid u beginning ending rows (on_ledger call ∷ calls) db others k =
    serve_any-IsSealed c h rid u beginning ending rows calls (Calls.serve u call db).1 others.1
      ((Ledger.keeps_call rid u beginning ending rows call others.0).at db k)
serve_any-IsSealed c h rid u beginning ending rows (on_references call ∷ calls) db others k =
    serve_any-IsSealed c h rid u beginning ending rows calls (serve c h u call db).1 others.1
      ((serve-Keeps (Sealed-SurvivesReferences rid u beginning ending rows) c h call).at db k)
