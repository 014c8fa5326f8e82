-- ===== src/References/Tenant.antt =====
-- The calls on accounts, categories and hashtags as seen by another user.
use expense_world_engine.Base.{ℕ, ◌≢◌, refl, ◌∙◌, select, arith}
use expense_world_engine.Schema.{Db}
use expense_world_engine.Schema.Tables
use expense_world_engine.Query.{dynamic_update, soft_delete, restore}
use expense_world_engine.Query.Owned.{update_returning-Keeps}
use expense_world_engine.Named.{Casing}
use expense_world_engine.HomeBalance.{HomeBalance}
use expense_world_engine.Hashtags.{bump_parents}
use expense_world_engine.Tenant.{SameTenant, SameTenant-refl}
use expense_world_engine.Calls.Tenant.{
  IsTenantTable, update_rows-SameTenant, new_row-apart, SameTenant-SurvivesSideWrites,
  transactions-IsTenantTable, inbox-IsTenantTable,
}
use expense_world_engine.References.{Call, serve}
use expense_world_engine.References.Writes.{SurvivesReferences}
use expense_world_engine.References.Serve.{serve-Keeps}

module _ {u v : ℕ} (apart : u ≢ v) (base : Db) where
  accounts-IsTenantTable : IsTenantTable apart base Tables.accounts
  accounts-IsTenantTable db l e h = record {
    accounts = e ∙ h.accounts;
    categories = h.categories;
    hashtags = h.hashtags;
    transactions = h.transactions;
    inbox = h.inbox;
    reconciliations = h.reconciliations;
    activity_log = h.activity_log;
  }

  categories-IsTenantTable : IsTenantTable apart base Tables.categories
  categories-IsTenantTable db l e h = record {
    accounts = h.accounts;
    categories = e ∙ h.categories;
    hashtags = h.hashtags;
    transactions = h.transactions;
    inbox = h.inbox;
    reconciliations = h.reconciliations;
    activity_log = h.activity_log;
  }

  hashtags-IsTenantTable : IsTenantTable apart base Tables.hashtags
  hashtags-IsTenantTable db l e h = record {
    accounts = h.accounts;
    categories = h.categories;
    hashtags = e ∙ h.hashtags;
    transactions = h.transactions;
    inbox = h.inbox;
    reconciliations = h.reconciliations;
    activity_log = h.activity_log;
  }

  SameTenant-SurvivesReferences : SurvivesReferences u (SameTenant v base)
  unfolding select dynamic_update soft_delete restore bump_parents
  SameTenant-SurvivesReferences = record {
    side = SameTenant-SurvivesSideWrites apart base;
    insert_transaction = λ n db fresh h. record {
      accounts = h.accounts;
      categories = h.categories;
      hashtags = h.hashtags;
      transactions = rw (new_row-apart apart base u refl) h.transactions;
      inbox = h.inbox;
      reconciliations = h.reconciliations;
      activity_log = h.activity_log;
    };
    on_accounts = record {
      insert_account = λ n t order now db h. record {
        accounts = rw (new_row-apart apart base u refl) h.accounts;
        categories = h.categories;
        hashtags = h.hashtags;
        transactions = h.transactions;
        inbox = h.inbox;
        reconciliations = h.reconciliations;
        activity_log = h.activity_log;
      };
      edit_account = λ i f. update_returning-Keeps Tables.accounts _ _ (
          update_rows-SameTenant apart base Tables.accounts _ _ accounts-IsTenantTable
            (λ r q. ground arith) (λ now r. ground arith));
      set_archived = λ i b. update_returning-Keeps Tables.accounts _ _ (
          update_rows-SameTenant apart base Tables.accounts _ _ accounts-IsTenantTable
            (λ r q. ground arith) (λ now r. ground arith));
      close_account = λ i. update_returning-Keeps Tables.accounts _ _ (
          update_rows-SameTenant apart base Tables.accounts _ _ accounts-IsTenantTable
            (λ r q. ground arith) (λ now r. ground arith));
      reopen_account = λ i. update_returning-Keeps Tables.accounts _ _ (
          update_rows-SameTenant apart base Tables.accounts _ _ accounts-IsTenantTable
            (λ r q. ground arith) (λ now r. ground arith));
    };
    on_categories = record {
      insert_category = λ i n color key order now db h. record {
        accounts = h.accounts;
        categories = rw (new_row-apart apart base u refl) h.categories;
        hashtags = h.hashtags;
        transactions = h.transactions;
        inbox = h.inbox;
        reconciliations = h.reconciliations;
        activity_log = h.activity_log;
      };
      edit_category = λ i f. update_returning-Keeps Tables.categories _ _ (
          update_rows-SameTenant apart base Tables.categories _ _ categories-IsTenantTable
            (λ r q. ground arith) (λ now r. ground arith));
      close_category = λ i. update_returning-Keeps Tables.categories _ _ (
          update_rows-SameTenant apart base Tables.categories _ _ categories-IsTenantTable
            (λ r q. ground arith) (λ now r. ground arith));
      reopen_category = λ i. update_returning-Keeps Tables.categories _ _ (
          update_rows-SameTenant apart base Tables.categories _ _ categories-IsTenantTable
            (λ r q. ground arith) (λ now r. ground arith));
    };
    on_hashtags = record {
      insert_hashtag = λ i n order now db h. record {
        accounts = h.accounts;
        categories = h.categories;
        hashtags = rw (new_row-apart apart base u refl) h.hashtags;
        transactions = h.transactions;
        inbox = h.inbox;
        reconciliations = h.reconciliations;
        activity_log = h.activity_log;
      };
      edit_hashtag = λ i f. update_returning-Keeps Tables.hashtags _ _ (
          update_rows-SameTenant apart base Tables.hashtags _ _ hashtags-IsTenantTable
            (λ r q. ground arith) (λ now r. ground arith));
      close_hashtag = λ i. update_returning-Keeps Tables.hashtags _ _ (
          update_rows-SameTenant apart base Tables.hashtags _ _ hashtags-IsTenantTable
            (λ r q. ground arith) (λ now r. ground arith));
      reopen_hashtag = λ i. update_returning-Keeps Tables.hashtags _ _ (
          update_rows-SameTenant apart base Tables.hashtags _ _ hashtags-IsTenantTable
            (λ r q. ground arith) (λ now r. ground arith));
      bump_transactions = λ ids.
          update_rows-SameTenant apart base Tables.transactions _ _
            (transactions-IsTenantTable apart base) (λ r q. ground arith) (λ now r. ground arith);
      bump_drafts = λ ids.
          update_rows-SameTenant apart base Tables.inbox _ _ (inbox-IsTenantTable apart base)
            (λ r q. ground arith) (λ now r. ground arith);
    };
  }

-- Whatever the call of user `u` on accounts, people, categories or hashtags, and whether it returns
-- or raises, the rows of any other user `v` are the same after it, in the accounts, categories,
-- hashtags, transactions, drafts, reconciliations and the activity log.
pub references-SameTenant :
    (c : Casing) (h : HomeBalance) (u v : ℕ) (call : Call) (db : Db)
    → u ≢ v
    → SameTenant v db (serve c h u call db).1
references-SameTenant c h u v call db apart =
    (serve-Keeps (SameTenant-SurvivesReferences apart db) c h call).at db (SameTenant-refl v db)
