-- ===== src/Tests/Deletions.antt =====
-- The deletions of accounts, categories and hashtags on the small database.
use expense_world_engine.Base.{◌≡◌, refl, false, none, some, [], find, exists, select, update_where}
use expense_world_engine.Base.Int.{pos}
use expense_world_engine.Base.Sums.{sum_by}
use expense_world_engine.Schema.{Db, Category, Snapshot, account_from_row, category_from_row}
use expense_world_engine.Schema.Tables
use expense_world_engine.Exec.{ok, pure, gets, modify, ◌>>=◌}
use expense_world_engine.HomeBalance.{HomeBalance}
use expense_world_engine.Query.{
  is_resolved, fetch_owned_row, fetch_owned_row_or_404, update_rows, update_returning, soft_delete,
  mutate_with_audit, soft_delete_with_audit, write_activity_log,
}
use expense_world_engine.Ledger.Balance.{balance_of, fetch_balance}
use expense_world_engine.Hashtags.{
  delete_hashtag, carries, detach_everywhere, close_links, bump_parents,
}
use expense_world_engine.Hashtags.Guards as HashtagGuards
use expense_world_engine.Categories.{delete_category}
use expense_world_engine.Categories.Guards as CategoryGuards
use expense_world_engine.Accounts.{books_on, delete_account}
use expense_world_engine.Accounts.Guards as AccountGuards
use expense_world_engine.Tests.Data.{books, cash, food, lunch_tag, tagged}
use expense_world_engine.Tests.References.{casing}

abbrev detached : Db
detached = (delete_hashtag 1 30 tagged).1

abbrev deleted_tag : Snapshot
deleted_tag =
    Snapshot.hashtag (record lunch_tag { updated_at = 10; version = 2; deleted_at = some 10 })

tag_deleted : delete_hashtag 1 30 tagged ≡ (ok deleted_tag, detached)
unfolding delete_hashtag detach_everywhere close_links bump_parents update_rows find select
    update_where fetch_owned_row_or_404 fetch_owned_row soft_delete_with_audit mutate_with_audit
    soft_delete update_returning write_activity_log gets modify pure ◌>>=◌
tag_deleted = refl

delete_hashtag-carries_example :
    (exists (carries 1 30) detached.junctions ≡ false)
    × (exists (is_resolved Tables.hashtags 30 1 false) detached.hashtags ≡ false)
delete_hashtag-carries_example =
    HashtagGuards.delete_hashtag-carries 1 30 tagged deleted_tag detached tag_deleted

abbrev bare : Db
bare = record books { transactions = [] }

abbrev without_food : Db
without_food = (delete_category 1 20 bare).1

abbrev deleted_food : Snapshot
deleted_food =
    Snapshot.category
      (category_from_row (record food { updated_at = 10; version = 2; deleted_at = some 10 }))

food_deleted : delete_category 1 20 bare ≡ (ok deleted_food, without_food)
unfolding delete_category find exists fetch_owned_row_or_404 fetch_owned_row soft_delete_with_audit
    mutate_with_audit soft_delete update_returning update_where write_activity_log gets modify pure
    ◌>>=◌
food_deleted = refl

delete_category-Unreferenced_example :
    (row : Category) × CategoryGuards.Unreferenced 1 20 row bare without_food
delete_category-Unreferenced_example =
    CategoryGuards.delete_category-Unreferenced 1 20 bare deleted_food without_food food_deleted

-- A process without a rate: every home balance is null.
abbrev no_home : HomeBalance
unfolding pure
no_home = record { home_balance = λ _ _ _. pure none; reads = λ _ _ _ _. refl }

abbrev without_cash : Db
unfolding pure
without_cash = (delete_account casing no_home 1 10 bare).1

abbrev deleted_cash : Snapshot
deleted_cash = Snapshot.account (
    account_from_row (record cash { updated_at = 10; version = 2; deleted_at = some 10 }) (pos 0)
      none)

cash_deleted : delete_account casing no_home 1 10 bare ≡ (ok deleted_cash, without_cash)
unfolding delete_account find exists fetch_owned_row_or_404 fetch_owned_row fetch_balance balance_of
    sum_by select soft_delete_with_audit mutate_with_audit soft_delete update_returning update_where
    write_activity_log gets modify pure ◌>>=◌
cash_deleted = refl

delete_account-balance_of_example :
    (exists (books_on 1 10) without_cash.transactions ≡ false)
    × ((balance_of 1 10 without_cash.transactions ≡ pos 0)
        × (exists (is_resolved Tables.accounts 10 1 false) without_cash.accounts ≡ false))
delete_account-balance_of_example =
    AccountGuards.delete_account-balance_of casing no_home 1 10 bare deleted_cash without_cash
      cash_deleted
