-- ===== src/Calls/Tenant.antt =====
-- The calls of app/routers as seen by another user.
use expense_world_engine.Base.{
  ℕ, ◌≡◌, refl, ◌∙◌, ◌≢◌, Bool, true, false, List, select, arith, ◌==◌, select-update_where_apart,
}
use expense_world_engine.Schema.{Db}
use expense_world_engine.Schema.Tables.{Table}
use expense_world_engine.Schema.Tables
use expense_world_engine.Exec.{modify}
use expense_world_engine.Exec.Keeps.{Keeps, Keeps-modify}
use expense_world_engine.Query.{update_rows, dynamic_update, soft_delete, restore}
use expense_world_engine.Query.Owned.{update_returning-Keeps}
use expense_world_engine.Ledger.Keeps.{SurvivesSideWrites}
use expense_world_engine.Tenant.{SameTenant, SameTenant-refl}
use expense_world_engine.Calls.{Call, serve}
use expense_world_engine.Calls.Keeps.{SurvivesCalls, serve-Keeps}

other_user : (u v n : ℕ) → u ≢ v → (n == u) ≡ true → (n == v) ≡ false
other_user u v n h e = ground arith

module _ {u v : ℕ} (apart : u ≢ v) (base : Db) where
  -- What the interface of a table owes for isolation: writing it back touches no other table.
  abbrev pub IsTenantTable : {R : Type 0} → Table R → Type 0
  IsTenantTable {R} t =
      (db : Db) (l : List R)
      → select (λ r. t.owner_of r == v) l ≡ select (λ r. t.owner_of r == v) (t.rows db)
      → SameTenant v base db
      → SameTenant v base (t.with_rows db l)

  -- A write whose predicate names the user, and which sets no owner.
  pub update_rows-SameTenant :
      {R : Type 0} (t : Table R) (p : R → Bool) (f : ℕ → R → R)
      → IsTenantTable t
      → ((r : R) → p r ≡ true → (t.owner_of r == u) ≡ true)
      → ((now : ℕ) (r : R) → t.owner_of (f now r) ≡ t.owner_of r)
      → Keeps (SameTenant v base) (modify (update_rows t p f))
  unfolding update_rows
  update_rows-SameTenant t p f lawful own keep = Keeps-modify _ λ db h.
      lawful db _
        (select-update_where_apart p _ _ _ (λ r q. other_user u v _ apart (own r q))
          (λ r q. other_user u v _ apart (ground (arith, keep db.now r, own r q))))
        h

  pub transactions-IsTenantTable : IsTenantTable Tables.transactions
  transactions-IsTenantTable db l e h = record {
    accounts = h.accounts;
    categories = h.categories;
    hashtags = h.hashtags;
    transactions = e ∙ h.transactions;
    inbox = h.inbox;
    reconciliations = h.reconciliations;
    activity_log = h.activity_log;
  }

  pub inbox-IsTenantTable : IsTenantTable Tables.inbox
  inbox-IsTenantTable db l e h = record {
    accounts = h.accounts;
    categories = h.categories;
    hashtags = h.hashtags;
    transactions = h.transactions;
    inbox = e ∙ h.inbox;
    reconciliations = h.reconciliations;
    activity_log = h.activity_log;
  }

  reconciliations-IsTenantTable : IsTenantTable Tables.reconciliations
  reconciliations-IsTenantTable db l e h = record {
    accounts = h.accounts;
    categories = h.categories;
    hashtags = h.hashtags;
    transactions = h.transactions;
    inbox = h.inbox;
    reconciliations = e ∙ h.reconciliations;
    activity_log = h.activity_log;
  }

  pub new_row-apart : (n : ℕ) → (n ≡ u) → (n == v) ≡ false
  new_row-apart n e = ground arith

  pub SameTenant-SurvivesSideWrites : SurvivesSideWrites u (SameTenant v base)
  unfolding select
  SameTenant-SurvivesSideWrites = record {
    links = λ js db h. record {
      accounts = h.accounts;
      categories = h.categories;
      hashtags = h.hashtags;
      transactions = h.transactions;
      inbox = h.inbox;
      reconciliations = h.reconciliations;
      activity_log = h.activity_log;
    };
    log = λ e db own h. record {
      accounts = h.accounts;
      categories = h.categories;
      hashtags = h.hashtags;
      transactions = h.transactions;
      inbox = h.inbox;
      reconciliations = h.reconciliations;
      activity_log = rw (new_row-apart e.user_id own.0) h.activity_log;
    };
  }

  SameTenant-SurvivesCalls : SurvivesCalls u (SameTenant v base)
  unfolding select dynamic_update soft_delete restore
  SameTenant-SurvivesCalls = record {
    side = SameTenant-SurvivesSideWrites;
    insert_transaction = λ n db fresh h. record {
      accounts = h.accounts;
      categories = h.categories;
      hashtags = h.hashtags;
      transactions = rw (new_row-apart u refl) h.transactions;
      inbox = h.inbox;
      reconciliations = h.reconciliations;
      activity_log = h.activity_log;
    };
    insert_item = λ body db h. record {
      accounts = h.accounts;
      categories = h.categories;
      hashtags = h.hashtags;
      transactions = h.transactions;
      inbox = rw (new_row-apart u refl) h.inbox;
      reconciliations = h.reconciliations;
      activity_log = h.activity_log;
    };
    insert_reconciliation = λ body t db fresh h. record {
      accounts = h.accounts;
      categories = h.categories;
      hashtags = h.hashtags;
      transactions = h.transactions;
      inbox = h.inbox;
      reconciliations = rw (new_row-apart u refl) h.reconciliations;
      activity_log = h.activity_log;
    };
    edit_transaction = λ i f recon. update_returning-Keeps Tables.transactions _ _ (
        update_rows-SameTenant Tables.transactions _ _ transactions-IsTenantTable
          (λ r q. ground arith) (λ now r. ground arith));
    close_transaction = λ i. update_returning-Keeps Tables.transactions _ _ (
        update_rows-SameTenant Tables.transactions _ _ transactions-IsTenantTable
          (λ r q. ground arith) (λ now r. ground arith));
    reopen_transaction = λ i unlink. update_returning-Keeps Tables.transactions _ _ (
        update_rows-SameTenant Tables.transactions _ _ transactions-IsTenantTable
          (λ r q. ground arith) (λ now r. ground arith));
    edit_item = λ i f. update_returning-Keeps Tables.inbox _ _ (
        update_rows-SameTenant Tables.inbox _ _ inbox-IsTenantTable (λ r q. ground arith)
          (λ now r. ground arith));
    close_item = λ i. update_returning-Keeps Tables.inbox _ _ (
        update_rows-SameTenant Tables.inbox _ _ inbox-IsTenantTable (λ r q. ground arith)
          (λ now r. ground arith));
    retire_item = λ i. update_returning-Keeps Tables.inbox _ _ (
        update_rows-SameTenant Tables.inbox _ _ inbox-IsTenantTable (λ r q. ground arith)
          (λ now r. ground arith));
    edit_reconciliation = λ i f. update_returning-Keeps Tables.reconciliations _ _ (
        update_rows-SameTenant Tables.reconciliations _ _ reconciliations-IsTenantTable
          (λ r q. ground arith) (λ now r. ground arith));
    flip = λ i target.
        update_rows-SameTenant Tables.reconciliations _ _ reconciliations-IsTenantTable
          (λ r q. ground arith) (λ now r. ground arith);
    touch_assigned = λ i.
        update_rows-SameTenant Tables.transactions _ _ transactions-IsTenantTable
          (λ r q. ground arith) (λ now r. ground arith);
    unassign = λ i.
        update_rows-SameTenant Tables.transactions _ _ transactions-IsTenantTable
          (λ r q. ground arith) (λ now r. ground arith);
    close_reconciliation = λ i. update_returning-Keeps Tables.reconciliations _ _ (
        update_rows-SameTenant Tables.reconciliations _ _ reconciliations-IsTenantTable
          (λ r q. ground arith) (λ now r. ground arith));
    reopen_reconciliation = λ i. update_returning-Keeps Tables.reconciliations _ _ (
        update_rows-SameTenant Tables.reconciliations _ _ reconciliations-IsTenantTable
          (λ r q. ground arith) (λ now r. ground arith));
  }

-- Whatever the call of user `u`, and whether it returns or raises, the rows of any other user `v`
-- are the same after it, in the accounts, categories, hashtags, transactions, drafts,
-- reconciliations and the activity log.
pub serve-SameTenant :
    (u v : ℕ) (call : Call) (db : Db) → u ≢ v → SameTenant v db (serve u call db).1
serve-SameTenant u v call db apart =
    (serve-Keeps (SameTenant-SurvivesCalls apart db) call).at db (SameTenant-refl v db)
