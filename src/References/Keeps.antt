-- ===== src/References/Keeps.antt =====
-- The service functions of accounts, categories and hashtags, for any invariant that survives
-- their writes.
use expense_world_engine.Base.{ℕ, Bool, Option, none, some, List}
use expense_world_engine.Base.Int.{ℤ, pos}
use expense_world_engine.Schema.{
  Db, Text, Junction, Account, Category, Hashtag, SystemCategoryKey, Resource, Snapshot,
  ActivityAction,
}
use expense_world_engine.Schema.Tables.{Table}
use expense_world_engine.Schema.Tables
use expense_world_engine.Exec.{Exec}
use expense_world_engine.Exec.Keeps.{Keeps, Keeps-modify, Keeps-pure, keeps_rules}
use expense_world_engine.Query.{write_activity_log, soft_delete_with_audit, restore_with_audit}
use expense_world_engine.Ledger.Keeps.{SurvivesSideWrites}
use expense_world_engine.Named.{
  Casing, NamedTable, NamedFields, name_taken, check_rename, check_int4, is_empty,
  update_named_resource, update_nonempty,
}
use expense_world_engine.Named
use expense_world_engine.HomeBalance.{HomeBalance}
use expense_world_engine.Accounts.{
  NewAccount, AccountFields, OpeningBalanceRequest, new_account, insert_account, set_account,
  archived,
}
use expense_world_engine.Accounts
use expense_world_engine.Categories.{
  new_category, insert_category, set_category, seed_category, reread_seeded, seed_or_reread,
  fetch_system_category, ensure_system_category, default_name, default_color, reject_reserved_name,
}
use expense_world_engine.Categories
use expense_world_engine.Hashtags.{
  new_hashtag, insert_hashtag, set_hashtag, close_links, bump_parents, detach_everywhere,
}
use expense_world_engine.Hashtags
use expense_world_engine.References.Writes.{
  SurvivesAccounts, SurvivesCategories, SurvivesHashtags, reads, log-Keeps, mutate_with_audit-Keeps,
  update_named_resource-Keeps, check_rename-Keeps, reject_reserved_name-Keeps,
}

module _ {u : ℕ} {P : Db → Type 0} (side : SurvivesSideWrites u P) where
  log :
      (noun : Resource) (i : ℕ) (action : ActivityAction) (b a : Option Snapshot)
      → Keeps P (write_activity_log u noun i action b a)
  log = log-Keeps side

  module _ (writes : SurvivesAccounts u P) where
    insert_account-Keeps :
        (n : NewAccount) (t : Text) (order : ℤ) → Keeps P (insert_account u n t order)
    unfolding insert_account
    insert_account-Keeps n t order =
        let write = λ (now : ℕ). Keeps-modify _ (writes.insert_account n t order now) in
        search (keeps_rules, write) depth 12

    close_account-Keeps :
        (row : Account) (serialize : Account → Exec Snapshot)
        → ((r : Account) → Keeps P (serialize r))
        → Keeps P (soft_delete_with_audit Tables.accounts u Resource.account row serialize)
    unfolding soft_delete_with_audit
    close_account-Keeps row serialize ks =
        mutate_with_audit-Keeps side Tables.accounts _ row serialize _ _ ks
          (writes.close_account row.id)

    reopen_account-Keeps :
        (row : Account) (serialize : Account → Exec Snapshot)
        → ((r : Account) → Keeps P (serialize r))
        → Keeps P (restore_with_audit Tables.accounts u Resource.account row serialize)
    unfolding restore_with_audit
    reopen_account-Keeps row serialize ks =
        mutate_with_audit-Keeps side Tables.accounts _ row serialize _ _ ks
          (writes.reopen_account row.id)

    module _ (c : Casing) (h : HomeBalance) where
      pub create_account-Keeps : (n : NewAccount) → Keeps P (Accounts.create_account c h u n)
      unfolding Accounts.create_account
      create_account-Keeps n = search (reads, insert_account-Keeps, log) depth 30

      pub update_account-Keeps :
          (i : ℕ) (f : AccountFields) → Keeps P (Accounts.update_account c h u i f)
      unfolding Accounts.update_account Accounts.fetch_account Accounts.update_nonempty
      update_account-Keeps i f =
          let edit = writes.edit_account in search (reads, check_rename-Keeps, edit, log) depth 30

      pub delete_account-Keeps : (i : ℕ) → Keeps P (Accounts.delete_account c h u i)
      unfolding Accounts.delete_account
      delete_account-Keeps i = search (reads, close_account-Keeps) depth 20

      pub restore_account-Keeps : (i : ℕ) → Keeps P (Accounts.restore_account c h u i)
      unfolding Accounts.restore_account
      restore_account-Keeps i = search (reads, reopen_account-Keeps) depth 20

      pub set_account_archive-Keeps :
          (i : ℕ) (b : Bool) → Keeps P (Accounts.set_account_archive h u i b)
      unfolding Accounts.set_account_archive
      set_account_archive-Keeps i b =
          let edit = writes.set_archived in search (reads, edit, log) depth 20

  module _ (writes : SurvivesCategories u P) where
    insert_category-Keeps :
        (i : ℕ) (n color : Text) (order : ℤ) → Keeps P (insert_category u i n color order)
    unfolding insert_category
    insert_category-Keeps i n color order =
        let write = λ (now : ℕ). Keeps-modify _ (writes.insert_category i n color none order now) in
        search (keeps_rules, write) depth 12

    close_category-Keeps :
        (row : Category) (serialize : Category → Exec Snapshot)
        → ((r : Category) → Keeps P (serialize r))
        → Keeps P (soft_delete_with_audit Tables.categories u Resource.category row serialize)
    unfolding soft_delete_with_audit
    close_category-Keeps row serialize ks =
        mutate_with_audit-Keeps side Tables.categories _ row serialize _ _ ks
          (writes.close_category row.id)

    reopen_category-Keeps :
        (row : Category) (serialize : Category → Exec Snapshot)
        → ((r : Category) → Keeps P (serialize r))
        → Keeps P (restore_with_audit Tables.categories u Resource.category row serialize)
    unfolding restore_with_audit
    reopen_category-Keeps row serialize ks =
        mutate_with_audit-Keeps side Tables.categories _ row serialize _ _ ks
          (writes.reopen_category row.id)

    seed_category-Keeps :
        (c : Casing) (key : SystemCategoryKey) (i : ℕ) → Keeps P (seed_category c u key i)
    unfolding seed_category
    seed_category-Keeps c key i =
        let write = λ (now : ℕ).
          Keeps-modify _
            (writes.insert_category i (default_name key) default_color (some key) (pos 0) now) in
        search (keeps_rules, write) depth 16

    module _ (c : Casing) where
      pub create_category-Keeps :
          (i : ℕ) (n color : Text) (order : Option ℤ)
          → Keeps P (Categories.create_category c u i n color order)
      unfolding Categories.create_category
      create_category-Keeps i n color order = search (reads, insert_category-Keeps, log) depth 30

      pub update_category-Keeps :
          (i : ℕ) (f : NamedFields) → Keeps P (Categories.update_category c u i f)
      unfolding Categories.update_category
      update_category-Keeps i f =
          update_named_resource-Keeps side c Named.categories _ i f set_category _ _
            (λ r n. search (keeps_rules, reject_reserved_name-Keeps)) (writes.edit_category i)

      pub delete_category-Keeps : (i : ℕ) → Keeps P (Categories.delete_category u i)
      unfolding Categories.delete_category
      delete_category-Keeps i = search (reads, close_category-Keeps) depth 20

      pub restore_category-Keeps : (i : ℕ) → Keeps P (Categories.restore_category c u i)
      unfolding Categories.restore_category
      restore_category-Keeps i = search (reads, reopen_category-Keeps) depth 20

    pub ensure_system_category-Keeps :
        (c : Casing) (key : SystemCategoryKey) (i : ℕ) → Keeps P (ensure_system_category c u key i)
    unfolding ensure_system_category fetch_system_category seed_or_reread reread_seeded
    ensure_system_category-Keeps c key i = search (keeps_rules, seed_category-Keeps) depth 12

  module _ (writes : SurvivesHashtags u P) where
    insert_hashtag-Keeps : (i : ℕ) (n : Text) (order : ℤ) → Keeps P (insert_hashtag u i n order)
    unfolding insert_hashtag
    insert_hashtag-Keeps i n order =
        let write = λ (now : ℕ). Keeps-modify _ (writes.insert_hashtag i n order now) in
        search (keeps_rules, write) depth 12

    close_hashtag-Keeps :
        (row : Hashtag) (serialize : Hashtag → Exec Snapshot)
        → ((r : Hashtag) → Keeps P (serialize r))
        → Keeps P (soft_delete_with_audit Tables.hashtags u Resource.hashtag row serialize)
    unfolding soft_delete_with_audit
    close_hashtag-Keeps row serialize ks =
        mutate_with_audit-Keeps side Tables.hashtags _ row serialize _ _ ks
          (writes.close_hashtag row.id)

    reopen_hashtag-Keeps :
        (row : Hashtag) (serialize : Hashtag → Exec Snapshot)
        → ((r : Hashtag) → Keeps P (serialize r))
        → Keeps P (restore_with_audit Tables.hashtags u Resource.hashtag row serialize)
    unfolding restore_with_audit
    reopen_hashtag-Keeps row serialize ks =
        mutate_with_audit-Keeps side Tables.hashtags _ row serialize _ _ ks
          (writes.reopen_hashtag row.id)

    detach_everywhere-Keeps : (i : ℕ) → Keeps P (detach_everywhere u i)
    unfolding detach_everywhere close_links
    detach_everywhere-Keeps i =
        let bump = writes.bump_transactions in
        let bump' = writes.bump_drafts in
        let write = λ (f : Db → List Junction).
          Keeps-modify (λ db. record db { junctions = f db }) (λ db h. side.links (f db) db h) in
        search (keeps_rules, bump, bump', write) depth 12

    module _ (c : Casing) where
      pub create_hashtag-Keeps :
          (i : ℕ) (n : Text) (order : Option ℤ) → Keeps P (Hashtags.create_hashtag c u i n order)
      unfolding Hashtags.create_hashtag
      create_hashtag-Keeps i n order = search (reads, insert_hashtag-Keeps, log) depth 30

      pub update_hashtag-Keeps :
          (i : ℕ) (f : NamedFields) → Keeps P (Hashtags.update_hashtag c u i f)
      unfolding Hashtags.update_hashtag
      update_hashtag-Keeps i f =
          update_named_resource-Keeps side c Named.hashtags _ i f set_hashtag _ _
            (λ r n. Keeps-pure tt) (writes.edit_hashtag i)

      pub delete_hashtag-Keeps : (i : ℕ) → Keeps P (Hashtags.delete_hashtag u i)
      unfolding Hashtags.delete_hashtag
      delete_hashtag-Keeps i = search (reads, detach_everywhere-Keeps, close_hashtag-Keeps) depth 20

      pub restore_hashtag-Keeps : (i : ℕ) → Keeps P (Hashtags.restore_hashtag c u i)
      unfolding Hashtags.restore_hashtag
      restore_hashtag-Keeps i = search (reads, reopen_hashtag-Keeps) depth 20
