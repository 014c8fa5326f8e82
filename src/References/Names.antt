-- ===== src/References/Names.antt =====
-- The unique indexes of names under the calls on accounts, categories and hashtags.
use expense_world_engine.Base.{ℕ, true, false}
use expense_world_engine.Schema.{Db}
use expense_world_engine.Schema.Tables
use expense_world_engine.Exec.Keeps.{Keeps, Keeps-seq, Keeps-pure}
use expense_world_engine.Ledger.Keeps.{SurvivesSideWrites}
use expense_world_engine.Named.{Casing}
use expense_world_engine.Named
use expense_world_engine.Named.Names.{HasUniqueNames}
use expense_world_engine.HomeBalance.{HomeBalance}
use expense_world_engine.Accounts.{archive_account, unarchive_account}
use expense_world_engine.Accounts.Names as AccountNames
use expense_world_engine.Categories.Names as CategoryNames
use expense_world_engine.Categories.Seeding.{ensure_system_category-HasUniqueNames}
use expense_world_engine.Hashtags.Names as HashtagNames
use expense_world_engine.References.{Call, serve}
use expense_world_engine.References.Writes.{SurvivesAccounts, SurvivesCategories, SurvivesHashtags}
use expense_world_engine.References.Blind.{
  blind-SurvivesAccounts, blind-SurvivesCategories, blind-SurvivesHashtags, bump_parents-IsBlind,
}
use expense_world_engine.References.Keeps
use expense_world_engine.References.Serve.{create_opening_balance-Keeps}

module _ (c : Casing) (h : HomeBalance) (u : ℕ) where
  abbrev A : Db → Type 0
  A = HasUniqueNames c Named.accounts

  abbrev C : Db → Type 0
  C = HasUniqueNames c Named.categories

  abbrev H : Db → Type 0
  H = HasUniqueNames c Named.hashtags

  A-side : SurvivesSideWrites u A
  A-side = record { links = λ js db k. k; log = λ e db own k. k }

  C-side : SurvivesSideWrites u C
  C-side = record { links = λ js db k. k; log = λ e db own k. k }

  H-side : SurvivesSideWrites u H
  H-side = record { links = λ js db k. k; log = λ e db own k. k }

  A-categories : SurvivesCategories u A
  A-categories = blind-SurvivesCategories A u (λ db l k. k)

  A-hashtags : SurvivesHashtags u A
  A-hashtags =
      blind-SurvivesHashtags A u (λ db l k. k)
        (λ ids. bump_parents-IsBlind A Tables.transactions u ids (λ db l k. k))
        (λ ids. bump_parents-IsBlind A Tables.inbox u ids (λ db l k. k))

  C-accounts : SurvivesAccounts u C
  C-accounts = blind-SurvivesAccounts C u (λ db l k. k)

  C-hashtags : SurvivesHashtags u C
  C-hashtags =
      blind-SurvivesHashtags C u (λ db l k. k)
        (λ ids. bump_parents-IsBlind C Tables.transactions u ids (λ db l k. k))
        (λ ids. bump_parents-IsBlind C Tables.inbox u ids (λ db l k. k))

  H-accounts : SurvivesAccounts u H
  H-accounts = blind-SurvivesAccounts H u (λ db l k. k)

  H-categories : SurvivesCategories u H
  H-categories = blind-SurvivesCategories H u (λ db l k. k)

  accounts_kept : (call : Call) → Keeps A (serve c h u call)
  unfolding serve archive_account unarchive_account
  accounts_kept (Call.create_account n) =
      Keeps-seq _ _ (AccountNames.create_account-HasUniqueNames c h u n) (Keeps-pure tt)
  accounts_kept (Call.update_account i f) =
      Keeps-seq _ _ (AccountNames.update_account-HasUniqueNames c h u i f) (Keeps-pure tt)
  accounts_kept (Call.delete_account i) =
      Keeps-seq _ _ (AccountNames.delete_account-HasUniqueNames c h u i) (Keeps-pure tt)
  accounts_kept (Call.restore_account i) =
      Keeps-seq _ _ (AccountNames.restore_account-HasUniqueNames c h u i) (Keeps-pure tt)
  accounts_kept (Call.archive_account i) =
      Keeps-seq _ _ (AccountNames.set_account_archive-HasUniqueNames c h u i true) (Keeps-pure tt)
  accounts_kept (Call.unarchive_account i) =
      Keeps-seq _ _ (AccountNames.set_account_archive-HasUniqueNames c h u i false) (Keeps-pure tt)
  accounts_kept (Call.create_opening_balance i body fresh) =
      Keeps-seq _ _
        (create_opening_balance-Keeps A-side c i body fresh (λ n db e k. k)
          (λ key. Keeps.ensure_system_category-Keeps A-side A-categories c key fresh))
        (Keeps-pure tt)
  accounts_kept (Call.create_category i n color order) =
      Keeps-seq _ _ (Keeps.create_category-Keeps A-side A-categories c i n color order)
        (Keeps-pure tt)
  accounts_kept (Call.update_category i f) =
      Keeps-seq _ _ (Keeps.update_category-Keeps A-side A-categories c i f) (Keeps-pure tt)
  accounts_kept (Call.delete_category i) =
      Keeps-seq _ _ (Keeps.delete_category-Keeps A-side A-categories c i) (Keeps-pure tt)
  accounts_kept (Call.restore_category i) =
      Keeps-seq _ _ (Keeps.restore_category-Keeps A-side A-categories c i) (Keeps-pure tt)
  accounts_kept (Call.create_hashtag i n order) =
      Keeps-seq _ _ (Keeps.create_hashtag-Keeps A-side A-hashtags c i n order) (Keeps-pure tt)
  accounts_kept (Call.update_hashtag i f) =
      Keeps-seq _ _ (Keeps.update_hashtag-Keeps A-side A-hashtags c i f) (Keeps-pure tt)
  accounts_kept (Call.delete_hashtag i) =
      Keeps-seq _ _ (Keeps.delete_hashtag-Keeps A-side A-hashtags c i) (Keeps-pure tt)
  accounts_kept (Call.restore_hashtag i) =
      Keeps-seq _ _ (Keeps.restore_hashtag-Keeps A-side A-hashtags c i) (Keeps-pure tt)

  categories_kept : (call : Call) → Keeps C (serve c h u call)
  unfolding serve archive_account unarchive_account
  categories_kept (Call.create_account n) =
      Keeps-seq _ _ (Keeps.create_account-Keeps C-side C-accounts c h n) (Keeps-pure tt)
  categories_kept (Call.update_account i f) =
      Keeps-seq _ _ (Keeps.update_account-Keeps C-side C-accounts c h i f) (Keeps-pure tt)
  categories_kept (Call.delete_account i) =
      Keeps-seq _ _ (Keeps.delete_account-Keeps C-side C-accounts c h i) (Keeps-pure tt)
  categories_kept (Call.restore_account i) =
      Keeps-seq _ _ (Keeps.restore_account-Keeps C-side C-accounts c h i) (Keeps-pure tt)
  categories_kept (Call.archive_account i) =
      Keeps-seq _ _ (Keeps.set_account_archive-Keeps C-side C-accounts c h i true) (Keeps-pure tt)
  categories_kept (Call.unarchive_account i) =
      Keeps-seq _ _ (Keeps.set_account_archive-Keeps C-side C-accounts c h i false) (Keeps-pure tt)
  categories_kept (Call.create_opening_balance i body fresh) =
      Keeps-seq _ _
        (create_opening_balance-Keeps C-side c i body fresh (λ n db e k. k)
          (λ key. ensure_system_category-HasUniqueNames c u key fresh))
        (Keeps-pure tt)
  categories_kept (Call.create_category i n color order) =
      Keeps-seq _ _ (CategoryNames.create_category-HasUniqueNames c u i n color order)
        (Keeps-pure tt)
  categories_kept (Call.update_category i f) =
      Keeps-seq _ _ (CategoryNames.update_category-HasUniqueNames c u i f) (Keeps-pure tt)
  categories_kept (Call.delete_category i) =
      Keeps-seq _ _ (CategoryNames.delete_category-HasUniqueNames c u i) (Keeps-pure tt)
  categories_kept (Call.restore_category i) =
      Keeps-seq _ _ (CategoryNames.restore_category-HasUniqueNames c u i) (Keeps-pure tt)
  categories_kept (Call.create_hashtag i n order) =
      Keeps-seq _ _ (Keeps.create_hashtag-Keeps C-side C-hashtags c i n order) (Keeps-pure tt)
  categories_kept (Call.update_hashtag i f) =
      Keeps-seq _ _ (Keeps.update_hashtag-Keeps C-side C-hashtags c i f) (Keeps-pure tt)
  categories_kept (Call.delete_hashtag i) =
      Keeps-seq _ _ (Keeps.delete_hashtag-Keeps C-side C-hashtags c i) (Keeps-pure tt)
  categories_kept (Call.restore_hashtag i) =
      Keeps-seq _ _ (Keeps.restore_hashtag-Keeps C-side C-hashtags c i) (Keeps-pure tt)

  hashtags_kept : (call : Call) → Keeps H (serve c h u call)
  unfolding serve archive_account unarchive_account
  hashtags_kept (Call.create_account n) =
      Keeps-seq _ _ (Keeps.create_account-Keeps H-side H-accounts c h n) (Keeps-pure tt)
  hashtags_kept (Call.update_account i f) =
      Keeps-seq _ _ (Keeps.update_account-Keeps H-side H-accounts c h i f) (Keeps-pure tt)
  hashtags_kept (Call.delete_account i) =
      Keeps-seq _ _ (Keeps.delete_account-Keeps H-side H-accounts c h i) (Keeps-pure tt)
  hashtags_kept (Call.restore_account i) =
      Keeps-seq _ _ (Keeps.restore_account-Keeps H-side H-accounts c h i) (Keeps-pure tt)
  hashtags_kept (Call.archive_account i) =
      Keeps-seq _ _ (Keeps.set_account_archive-Keeps H-side H-accounts c h i true) (Keeps-pure tt)
  hashtags_kept (Call.unarchive_account i) =
      Keeps-seq _ _ (Keeps.set_account_archive-Keeps H-side H-accounts c h i false) (Keeps-pure tt)
  hashtags_kept (Call.create_opening_balance i body fresh) =
      Keeps-seq _ _
        (create_opening_balance-Keeps H-side c i body fresh (λ n db e k. k)
          (λ key. Keeps.ensure_system_category-Keeps H-side H-categories c key fresh))
        (Keeps-pure tt)
  hashtags_kept (Call.create_category i n color order) =
      Keeps-seq _ _ (Keeps.create_category-Keeps H-side H-categories c i n color order)
        (Keeps-pure tt)
  hashtags_kept (Call.update_category i f) =
      Keeps-seq _ _ (Keeps.update_category-Keeps H-side H-categories c i f) (Keeps-pure tt)
  hashtags_kept (Call.delete_category i) =
      Keeps-seq _ _ (Keeps.delete_category-Keeps H-side H-categories c i) (Keeps-pure tt)
  hashtags_kept (Call.restore_category i) =
      Keeps-seq _ _ (Keeps.restore_category-Keeps H-side H-categories c i) (Keeps-pure tt)
  hashtags_kept (Call.create_hashtag i n order) =
      Keeps-seq _ _ (HashtagNames.create_hashtag-HasUniqueNames c u i n order) (Keeps-pure tt)
  hashtags_kept (Call.update_hashtag i f) =
      Keeps-seq _ _ (HashtagNames.update_hashtag-HasUniqueNames c u i f) (Keeps-pure tt)
  hashtags_kept (Call.delete_hashtag i) =
      Keeps-seq _ _ (HashtagNames.delete_hashtag-HasUniqueNames c u i) (Keeps-pure tt)
  hashtags_kept (Call.restore_hashtag i) =
      Keeps-seq _ _ (HashtagNames.restore_hashtag-HasUniqueNames c u i) (Keeps-pure tt)

-- Ids, and names of active rows, are unique in the three tables.
pub record AllUnique (c : Casing) (db : Db) : Type 0 where
  pub accounts : HasUniqueNames c Named.accounts db
  pub categories : HasUniqueNames c Named.categories db
  pub hashtags : HasUniqueNames c Named.hashtags db

-- Every call on accounts, people, categories and hashtags, the seeding of the system category
-- included, keeps ids unique and keeps any two active rows of one user under different folded
-- names (of accounts, under one currency), whether it returns or raises and however the folds of
-- case and the conversion to the home currency behave.
pub serve-AllUnique :
    (c : Casing) (h : HomeBalance) (u : ℕ) (call : Call) (db : Db)
    → AllUnique c db
    → AllUnique c (serve c h u call db).1
serve-AllUnique c h u call db k = record {
  accounts = (accounts_kept c h u call).at db k.accounts;
  categories = (categories_kept c h u call).at db k.categories;
  hashtags = (hashtags_kept c h u call).at db k.hashtags;
}
