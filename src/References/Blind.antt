-- ===== src/References/Blind.antt =====
-- Predicates that do not read a table survive every write to it.
use expense_world_engine.Base.{ℕ, Bool, List}
use expense_world_engine.Schema.{Db}
use expense_world_engine.Schema.Tables.{Table}
use expense_world_engine.Schema.Tables
use expense_world_engine.Exec.{modify}
use expense_world_engine.Exec.Keeps.{Keeps, Keeps-modify}
use expense_world_engine.Query.{update_rows, dynamic_update, update_returning, soft_delete, restore}
use expense_world_engine.Query.Owned.{update_returning-Keeps}
use expense_world_engine.Hashtags.{bump_parents}
use expense_world_engine.References.Writes.{SurvivesAccounts, SurvivesCategories, SurvivesHashtags}

module _ (P : Db → Type 0) where
  abbrev pub IsBlindTo : {R : Type 0} → Table R → Type 0
  IsBlindTo {R} t = (db : Db) (l : List R) → P db → P (t.with_rows db l)

  module _ {R : Type 0} (t : Table R) (blind : IsBlindTo t) where
    update_rows-blind : (p : R → Bool) (f : ℕ → R → R) → Keeps P (modify (update_rows t p f))
    unfolding update_rows
    update_rows-blind p f = Keeps-modify _ (λ db h. blind db _ h)

    update_returning-blind : (p : R → Bool) (f : ℕ → R → R) → Keeps P (update_returning t p f)
    update_returning-blind p f = update_returning-Keeps t p f (update_rows-blind p f)

    bump_parents-blind : (u : ℕ) (ids : List ℕ) → Keeps P (bump_parents t u ids)
    unfolding bump_parents
    bump_parents-blind u ids = update_rows-blind _ _

  pub blind-SurvivesAccounts : (u : ℕ) → IsBlindTo Tables.accounts → SurvivesAccounts u P
  unfolding dynamic_update soft_delete restore
  blind-SurvivesAccounts u blind = record {
    insert_account = λ n t order now db h. blind db _ h;
    edit_account = λ i f. update_returning-blind Tables.accounts blind _ _;
    set_archived = λ i b. update_returning-blind Tables.accounts blind _ _;
    close_account = λ i. update_returning-blind Tables.accounts blind _ _;
    reopen_account = λ i. update_returning-blind Tables.accounts blind _ _;
  }

  pub blind-SurvivesCategories : (u : ℕ) → IsBlindTo Tables.categories → SurvivesCategories u P
  unfolding dynamic_update soft_delete restore
  blind-SurvivesCategories u blind = record {
    insert_category = λ i n color key order now db h. blind db _ h;
    edit_category = λ i f. update_returning-blind Tables.categories blind _ _;
    close_category = λ i. update_returning-blind Tables.categories blind _ _;
    reopen_category = λ i. update_returning-blind Tables.categories blind _ _;
  }

  pub blind-SurvivesHashtags :
      (u : ℕ)
      → IsBlindTo Tables.hashtags
      → ((ids : List ℕ) → Keeps P (bump_parents Tables.transactions u ids))
      → ((ids : List ℕ) → Keeps P (bump_parents Tables.inbox u ids))
      → SurvivesHashtags u P
  unfolding dynamic_update soft_delete restore
  blind-SurvivesHashtags u blind on_transactions on_drafts = record {
    insert_hashtag = λ i n order now db h. blind db _ h;
    edit_hashtag = λ i f. update_returning-blind Tables.hashtags blind _ _;
    close_hashtag = λ i. update_returning-blind Tables.hashtags blind _ _;
    reopen_hashtag = λ i. update_returning-blind Tables.hashtags blind _ _;
    bump_transactions = on_transactions;
    bump_drafts = on_drafts;
  }

  pub bump_parents-IsBlind :
      {R : Type 0} (t : Table R) (u : ℕ) (ids : List ℕ)
      → IsBlindTo t
      → Keeps P (bump_parents t u ids)
  bump_parents-IsBlind t u ids blind = bump_parents-blind t blind u ids
