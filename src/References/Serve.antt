-- ===== src/References/Serve.antt =====
-- The calls on accounts, categories and hashtags: the induction over calls.
use expense_world_engine.Base.{ℕ, ◌≡◌, ◌==◌, exists, true, false, ◌∷◌}
use expense_world_engine.Schema.{Db, SystemCategoryKey}
use expense_world_engine.Exec.Keeps.{Keeps, Keeps-seq, Keeps-pure, keeps_rules}
use expense_world_engine.Ledger.Rows.{NewTransaction, new_row}
use expense_world_engine.Ledger.Keeps.{
  SurvivesSideWrites, validate_active_account-Keeps, create_transaction-Keeps,
}
use expense_world_engine.Named.{Casing}
use expense_world_engine.HomeBalance.{HomeBalance}
use expense_world_engine.Accounts.{
  NewAccount, AccountFields, OpeningBalanceRequest, new_account, insert_account, set_account,
  archived,
}
use expense_world_engine.Accounts
use expense_world_engine.Categories.{ensure_system_category}
use expense_world_engine.References.{Call, serve}
use expense_world_engine.References.Writes.{SurvivesReferences}
use expense_world_engine.References.Keeps.{
  create_account-Keeps, update_account-Keeps, delete_account-Keeps, restore_account-Keeps,
  set_account_archive-Keeps, create_category-Keeps, update_category-Keeps, delete_category-Keeps,
  restore_category-Keeps, create_hashtag-Keeps, update_hashtag-Keeps, delete_hashtag-Keeps,
  restore_hashtag-Keeps, ensure_system_category-Keeps,
}

module _ {u : ℕ} {P : Db → Type 0} (side : SurvivesSideWrites u P) where
  -- The category is the one that the seeding gives.
  pub create_opening_balance-Keeps :
      (c : Casing) (i : ℕ) (body : OpeningBalanceRequest) (fresh : ℕ)
      → ((n : NewTransaction) (db : Db)
          → exists (λ t. t.id == n.id) db.transactions ≡ false
          → P db
          → P (record db { transactions = new_row db.now u n ∷ db.transactions }))
      → ((key : SystemCategoryKey) → Keeps P (ensure_system_category c u key fresh))
      → Keeps P (Accounts.create_opening_balance c u i body fresh)
  unfolding Accounts.create_opening_balance
  create_opening_balance-Keeps c i body fresh insert seed =
      let create = create_transaction-Keeps side insert in
      search (keeps_rules, validate_active_account-Keeps, seed, create) depth 20

module _ {u : ℕ} {P : Db → Type 0} (survives : SurvivesReferences u P) (c : Casing)
    (h : HomeBalance) where
  -- What survives every write survives every call.
  pub serve-Keeps : (call : Call) → Keeps P (serve c h u call)
  unfolding serve Accounts.archive_account Accounts.unarchive_account
  serve-Keeps (Call.create_account n) =
      Keeps-seq _ _ (create_account-Keeps survives.side survives.on_accounts c h n) (Keeps-pure tt)
  serve-Keeps (Call.update_account i f) =
      Keeps-seq _ _ (update_account-Keeps survives.side survives.on_accounts c h i f)
        (Keeps-pure tt)
  serve-Keeps (Call.delete_account i) =
      Keeps-seq _ _ (delete_account-Keeps survives.side survives.on_accounts c h i) (Keeps-pure tt)
  serve-Keeps (Call.restore_account i) =
      Keeps-seq _ _ (restore_account-Keeps survives.side survives.on_accounts c h i) (Keeps-pure tt)
  serve-Keeps (Call.archive_account i) =
      Keeps-seq _ _ (set_account_archive-Keeps survives.side survives.on_accounts c h i true)
        (Keeps-pure tt)
  serve-Keeps (Call.unarchive_account i) =
      Keeps-seq _ _ (set_account_archive-Keeps survives.side survives.on_accounts c h i false)
        (Keeps-pure tt)
  serve-Keeps (Call.create_opening_balance i body fresh) =
      Keeps-seq _ _
        (create_opening_balance-Keeps survives.side c i body fresh survives.insert_transaction
          (λ key. ensure_system_category-Keeps survives.side survives.on_categories c key fresh))
        (Keeps-pure tt)
  serve-Keeps (Call.create_category i n color order) =
      Keeps-seq _ _ (create_category-Keeps survives.side survives.on_categories c i n color order)
        (Keeps-pure tt)
  serve-Keeps (Call.update_category i f) =
      Keeps-seq _ _ (update_category-Keeps survives.side survives.on_categories c i f)
        (Keeps-pure tt)
  serve-Keeps (Call.delete_category i) =
      Keeps-seq _ _ (delete_category-Keeps survives.side survives.on_categories c i) (Keeps-pure tt)
  serve-Keeps (Call.restore_category i) =
      Keeps-seq _ _ (restore_category-Keeps survives.side survives.on_categories c i)
        (Keeps-pure tt)
  serve-Keeps (Call.create_hashtag i n order) =
      Keeps-seq _ _ (create_hashtag-Keeps survives.side survives.on_hashtags c i n order)
        (Keeps-pure tt)
  serve-Keeps (Call.update_hashtag i f) =
      Keeps-seq _ _ (update_hashtag-Keeps survives.side survives.on_hashtags c i f) (Keeps-pure tt)
  serve-Keeps (Call.delete_hashtag i) =
      Keeps-seq _ _ (delete_hashtag-Keeps survives.side survives.on_hashtags c i) (Keeps-pure tt)
  serve-Keeps (Call.restore_hashtag i) =
      Keeps-seq _ _ (restore_hashtag-Keeps survives.side survives.on_hashtags c i) (Keeps-pure tt)
