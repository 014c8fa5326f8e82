-- ===== src/References.antt =====
-- The write routes of app/routers/accounts.py, people.py, categories.py and hashtags.py: each hands
-- one service function to `run_idempotent`.
pub mod Writes
pub mod Keeps
pub mod Serve
pub mod Blind
pub mod Names
pub mod Tenant
pub mod Sealed
use expense_world_engine.Base.{ℕ, Bool, true, false, Option, List, [], ◌∷◌}
use expense_world_engine.Base.Int.{ℤ}
use expense_world_engine.Schema.{Text, Db}
use expense_world_engine.Exec.{Exec, pure, ◌>>=◌, ◌>>◌}
use expense_world_engine.Named.{Casing, NamedFields}
use expense_world_engine.HomeBalance.{HomeBalance}
use expense_world_engine.Accounts.{NewAccount, AccountFields, OpeningBalanceRequest}
use expense_world_engine.Accounts
use expense_world_engine.Categories
use expense_world_engine.Hashtags

pub data Call : Type 0 where
  create_account : NewAccount → Call
  update_account : ℕ → AccountFields → Call
  delete_account restore_account archive_account unarchive_account : ℕ → Call
  -- the account, the body, and the random id of a category that is seeded
  create_opening_balance : ℕ → OpeningBalanceRequest → ℕ → Call
  -- the id, the name, the colour and the slot
  create_category : ℕ → Text → Text → Option ℤ → Call
  update_category : ℕ → NamedFields → Call
  delete_category restore_category : ℕ → Call
  create_hashtag : ℕ → Text → Option ℤ → Call
  update_hashtag : ℕ → NamedFields → Call
  delete_hashtag restore_hashtag : ℕ → Call

-- What a route's `work` does, its response body dropped.
module _ (c : Casing) (h : HomeBalance) (u : ℕ) where
  unfoldable pub serve : Call → Exec Unit
  serve (create_account n) = Accounts.create_account c h u n >> pure tt
  serve (update_account i f) = Accounts.update_account c h u i f >> pure tt
  serve (delete_account i) = Accounts.delete_account c h u i >> pure tt
  serve (restore_account i) = Accounts.restore_account c h u i >> pure tt
  serve (archive_account i) = Accounts.archive_account h u i >> pure tt
  serve (unarchive_account i) = Accounts.unarchive_account h u i >> pure tt
  serve (create_opening_balance i body fresh) =
      Accounts.create_opening_balance c u i body fresh >> pure tt
  serve (create_category i n color order) =
      Categories.create_category c u i n color order >> pure tt
  serve (update_category i f) = Categories.update_category c u i f >> pure tt
  serve (delete_category i) = Categories.delete_category u i >> pure tt
  serve (restore_category i) = Categories.restore_category c u i >> pure tt
  serve (create_hashtag i n order) = Hashtags.create_hashtag c u i n order >> pure tt
  serve (update_hashtag i f) = Hashtags.update_hashtag c u i f >> pure tt
  serve (delete_hashtag i) = Hashtags.delete_hashtag u i >> pure tt
  serve (restore_hashtag i) = Hashtags.restore_hashtag c u i >> pure tt
