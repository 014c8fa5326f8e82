-- ===== src/References/Writes.antt =====
-- Every write that a call on accounts, categories or hashtags can make, and what they read.
use expense_world_engine.Base.{
  ℕ, ◌≡◌, ◌==◌, sym, subst, exists, Bool, false, Option, none, some, List, ◌∷◌,
}
use expense_world_engine.Base.Int.{ℤ}
use expense_world_engine.Schema.{Db, Text, SystemCategoryKey, Resource, Snapshot, ActivityAction}
use expense_world_engine.Schema.Tables.{Table}
use expense_world_engine.Schema.Tables
use expense_world_engine.Exec.{Exec}
use expense_world_engine.Exec.Keeps.{
  Keeps, Keeps-modify, Keeps-seq, Keeps-bind, Keeps-if, Keeps-pure, keeps_rules,
}
use expense_world_engine.Query.{
  dynamic_update, update_returning, is_owned, soft_delete, restore, write_activity_log,
  mutate_with_audit,
}
use expense_world_engine.Query.Owned.{fetch_owned_row_or_404-Keeps}
use expense_world_engine.Validation.{currency_code_error}
use expense_world_engine.Ledger.Balance.{fetch_balance}
use expense_world_engine.Ledger.Rows.{NewTransaction, new_row}
use expense_world_engine.Ledger.Keeps.{SurvivesSideWrites, write_activity_log-Keeps}
use expense_world_engine.Named.{
  Casing, NamedTable, NamedFields, name_taken, check_rename, update_named_resource, update_nonempty,
}
use expense_world_engine.Named.Keeps.{
  normalize_name-Keeps, validate_color-Keeps, check_int4-Keeps, choose_sort_order-Keeps,
}
use expense_world_engine.HomeBalance.{HomeBalance}
use expense_world_engine.Accounts.{NewAccount, new_account, set_account, archived}
use expense_world_engine.Categories.{new_category, set_category, reject_reserved_name}
use expense_world_engine.Hashtags.{new_hashtag, set_hashtag, bump_parents}

-- One field for each write of the service functions of one resource.
pub record SurvivesAccounts (u : ℕ) (P : Db → Type 0) : Type 0 where
  pub insert_account :
      (n : NewAccount) (t : Text) (order : ℤ) (now : ℕ) (db : Db)
      → P db
      → P (record db { accounts = new_account now u n t order ∷ db.accounts })
  pub edit_account :
      (i : ℕ) (f : NamedFields) → Keeps P (dynamic_update Tables.accounts (set_account f) i u)
  pub set_archived :
      (i : ℕ) (b : Bool)
      → Keeps P (update_returning Tables.accounts (is_owned Tables.accounts i u) (archived b))
  pub close_account : (i : ℕ) → Keeps P (soft_delete Tables.accounts i u)
  pub reopen_account : (i : ℕ) → Keeps P (restore Tables.accounts i u)

pub record SurvivesCategories (u : ℕ) (P : Db → Type 0) : Type 0 where
  pub insert_category :
      (i : ℕ) (n color : Text) (key : Option SystemCategoryKey) (order : ℤ) (now : ℕ) (db : Db)
      → P db
      → P (record db { categories = new_category now u i n color key order ∷ db.categories })
  pub edit_category :
      (i : ℕ) (f : NamedFields) → Keeps P (dynamic_update Tables.categories (set_category f) i u)
  pub close_category : (i : ℕ) → Keeps P (soft_delete Tables.categories i u)
  pub reopen_category : (i : ℕ) → Keeps P (restore Tables.categories i u)

pub record SurvivesHashtags (u : ℕ) (P : Db → Type 0) : Type 0 where
  pub insert_hashtag :
      (i : ℕ) (n : Text) (order : ℤ) (now : ℕ) (db : Db)
      → P db
      → P (record db { hashtags = new_hashtag now u i n order ∷ db.hashtags })
  pub edit_hashtag :
      (i : ℕ) (f : NamedFields) → Keeps P (dynamic_update Tables.hashtags (set_hashtag f) i u)
  pub close_hashtag : (i : ℕ) → Keeps P (soft_delete Tables.hashtags i u)
  pub reopen_hashtag : (i : ℕ) → Keeps P (restore Tables.hashtags i u)
  pub bump_transactions : (ids : List ℕ) → Keeps P (bump_parents Tables.transactions u ids)
  pub bump_drafts : (ids : List ℕ) → Keeps P (bump_parents Tables.inbox u ids)

-- The insertion of a ledger row is that of an opening balance.
pub record SurvivesReferences (u : ℕ) (P : Db → Type 0) : Type 0 where
  pub side : SurvivesSideWrites u P
  pub insert_transaction :
      (n : NewTransaction) (db : Db)
      → exists (λ t. t.id == n.id) db.transactions ≡ false
      → P db
      → P (record db { transactions = new_row db.now u n ∷ db.transactions })
  pub on_accounts : SurvivesAccounts u P
  pub on_categories : SurvivesCategories u P
  pub on_hashtags : SurvivesHashtags u P

module _ {P : Db → Type 0} where
  pub name_taken-Keeps :
      {R : Type 0} (t : NamedTable R) (c : Casing) (u : ℕ) (n : Text) (e : Option ℕ)
      (currency : Option Text)
      → Keeps P (name_taken t c u n e currency)
  unfolding name_taken
  name_taken-Keeps t c u n e currency = search keeps_rules

  pub currency_code_error-Keeps : (t : Text) → Keeps P (currency_code_error t)
  unfolding currency_code_error
  currency_code_error-Keeps t = search keeps_rules

  pub fetch_balance-Keeps : (u i : ℕ) → Keeps P (fetch_balance u i)
  unfolding fetch_balance
  fetch_balance-Keeps u i = search keeps_rules

  pub home_balance-Keeps :
      (h : HomeBalance) (u : ℕ) (code : Text) (cents : ℤ) → Keeps P (h.home_balance u code cents)
  home_balance-Keeps h u code cents = record {
    at = λ db k. subst P (sym (h.reads u code cents db)) k;
  }

  pub reject_reserved_name-Keeps : (c : Casing) (n : Text) → Keeps P (reject_reserved_name c n)
  unfolding reject_reserved_name
  reject_reserved_name-Keeps c n = search keeps_rules

  pub check_rename-Keeps :
      {R : Type 0} (c : Casing) (t : NamedTable R) (u i : ℕ) (currency : Option Text) (row : R)
      (o : Option Text) (veto : R → Text → Exec Unit)
      → ((r : R) (n : Text) → Keeps P (veto r n))
      → Keeps P (check_rename c t u i currency row o veto)
  unfolding check_rename
  check_rename-Keeps c t u i currency row none veto kv = search keeps_rules
  check_rename-Keeps c t u i currency row (some n) veto kv =
      search (keeps_rules, normalize_name-Keeps, kv, name_taken-Keeps) depth 12

pub ruleset reads = (
  keeps_rules, name_taken-Keeps, currency_code_error-Keeps, fetch_balance-Keeps, home_balance-Keeps,
  reject_reserved_name-Keeps, normalize_name-Keeps, validate_color-Keeps, check_int4-Keeps,
  choose_sort_order-Keeps, fetch_owned_row_or_404-Keeps,
)

module _ {u : ℕ} {P : Db → Type 0} (side : SurvivesSideWrites u P) where
  pub log-Keeps :
      (noun : Resource) (i : ℕ) (action : ActivityAction) (b a : Option Snapshot)
      → Keeps P (write_activity_log u noun i action b a)
  log-Keeps = write_activity_log-Keeps side

  pub mutate_with_audit-Keeps :
      {R : Type 0} (t : Table R) (noun : Resource) (row : R) (serialize : R → Exec Snapshot)
      (mutate : Exec (Option R)) (action : ActivityAction)
      → ((r : R) → Keeps P (serialize r))
      → Keeps P mutate
      → Keeps P (mutate_with_audit t u noun row serialize mutate action)
  unfolding mutate_with_audit
  mutate_with_audit-Keeps t noun row serialize mutate action ks k =
      Keeps-bind _ _ (ks row)
        λ before. Keeps-bind _ _ k λ changed. search (keeps_rules, ks, log-Keeps)

  pub update_named_resource-Keeps :
      {R : Type 0} (c : Casing) (t : NamedTable R) (noun : Resource) (i : ℕ) (fields : NamedFields)
      (set : NamedFields → R → R) (serialize : R → Snapshot) (veto : R → Text → Exec Unit)
      → ((r : R) (n : Text) → Keeps P (veto r n))
      → ((f : NamedFields) → Keeps P (dynamic_update t.table (set f) i u))
      → Keeps P (update_named_resource c t u noun i fields set serialize veto)
  unfolding update_named_resource update_nonempty
  update_named_resource-Keeps c t noun i fields set serialize veto kv ks =
      search (reads, check_rename-Keeps, kv, ks, log-Keeps) depth 20
