-- ===== src/Tests/References.antt =====
-- The laws of the accounts, categories and hashtags on the small database.
use expense_world_engine.Base.{
  ◌≡◌, refl, true, false, none, [], ◌∷◌, find, exists, select, arith, All, List, Bool, ◌≢◌, ap,
}
use expense_world_engine.Base.Int.{pos, ◌+ℤ◌}
use expense_world_engine.Schema.{Db, Account, inflow, TransactionResponse}
use expense_world_engine.Exec.{
  ok, err, conflict, has_opening_balance, internal_error, pure, raise, gets, modify, ◌>>=◌,
}
use expense_world_engine.Text.{same_text, clean_name, strip, lstrip}
use expense_world_engine.Tenant.{SameTenant}
use expense_world_engine.Named.{Casing, next_sort_order, maximum, is_in_collection, fits_int4}
use expense_world_engine.Named
use expense_world_engine.Named.Order.{IsBelow}
use expense_world_engine.Named.Order
use expense_world_engine.HomeBalance.{HomeBalance}
use expense_world_engine.HomeBalance.Reads.{process_balance}
use expense_world_engine.Query.{write_activity_log}
use expense_world_engine.Validation.{
  validate_active_account, validate_active_category, normalize_name, reject_zero_amount, db_now,
  active_account_row, active_category_row,
}
use expense_world_engine.Ledger.Rows.{insert_transaction_row, attach_hashtag_ids}
use expense_world_engine.Ledger.Requests.{infer_transaction_type}
use expense_world_engine.Links.{fetch_hashtag_ids, sort_ids, linked_ids}
use expense_world_engine.Ledger.Create.{field_errors, create_transaction}
use expense_world_engine.Categories.{
  ensure_system_category, fetch_system_category, seed_or_reread, seed_category,
}
use expense_world_engine.Accounts.{OpeningBalanceRequest, create_opening_balance}
use expense_world_engine.Accounts.Opening
use expense_world_engine.Reconciliations.Sealed.{IsSealed}
use expense_world_engine.Calls
use expense_world_engine.References.{Call, serve}
use expense_world_engine.References.Names.{AllUnique}
use expense_world_engine.References.Names
use expense_world_engine.References.Tenant
use expense_world_engine.References.Sealed.{AnyCall, serve_any}
use expense_world_engine.References.Sealed
use expense_world_engine.Tests.Data.{books, cash}
use expense_world_engine.Tests.Keys.{august-IsSealed, august_rows}

-- Names without letters
abbrev pub casing : Casing
casing = record { sql_lower = λ t. t; py_lower = λ t. t; py_upper = λ t. t }

-- One zone, in which every instant is on day 9.
abbrev home : HomeBalance
home =
    process_balance
      (record {
        casing = casing;
        zones = record { is_zone = λ _. true; local_date = λ _ _. 9 };
        utc_now = 9;
        monotonic = 5;
      })
      []

next_is_1 : next_sort_order Named.accounts 1 none books ≡ (ok (pos 1), books)
unfolding next_sort_order gets pure ◌>>=◌ maximum select ◌+ℤ◌
next_is_1 = refl

next_sort_order-IsBelow_example :
    All
      (λ (r : Account). IsBelow r.sort_order (pos 1))
      (select (is_in_collection Named.accounts 1 none) books.accounts)
    × (fits_int4 (pos 1) ≡ true)
next_sort_order-IsBelow_example =
    Order.next_sort_order-IsBelow Named.accounts 1 none books books (pos 1) next_is_1

-- A slot at the end of the column
abbrev crowded : Db
crowded = record books { accounts = record cash { sort_order = pos 2147483647 } ∷ [] }

next_sort_order-overflow_example :
    next_sort_order Named.accounts 1 none crowded ≡ (err internal_error, crowded)
unfolding exists
next_sort_order-overflow_example = Order.next_sort_order-overflow Named.accounts 1 none crowded refl

books-AllUnique : AllUnique casing books
unfolding exists
books-AllUnique = record {
  accounts = ((refl, tt), (refl, tt));
  categories = ((refl, tt), (refl, tt));
  hashtags = ((refl, tt), (refl, tt));
}

abbrev opened : OpeningBalanceRequest
opened = record { transaction_id = 110; amount_cents = pos 5000; date = 9; title = none }

abbrev open_cash : Call
open_cash = Call.create_opening_balance 10 opened 21

serve-AllUnique_example : AllUnique casing (serve casing home 1 open_cash books).1
serve-AllUnique_example = Names.serve-AllUnique casing home 1 open_cash books books-AllUnique

references-SameTenant_example : SameTenant 2 books (serve casing home 1 open_cash books).1
references-SameTenant_example =
    Tenant.references-SameTenant casing home 1 2 open_cash books (λ e. ground (arith, e))

abbrev edits : List AnyCall
edits =
    AnyCall.on_references (Call.delete_hashtag 30)
    ∷ AnyCall.on_ledger (Calls.Call.delete_transaction 100)
    ∷ AnyCall.on_references open_cash
    ∷ []

delete_apart : Calls.Call.delete_transaction 100 ≢ Calls.Call.revert_reconciliation 50
delete_apart e = ground (arith, ap is_revert e)
  where
    is_revert : Calls.Call → Bool
    is_revert (Calls.Call.revert_reconciliation i) = true
    is_revert _ = false

serve_any-IsSealed_example :
    IsSealed 50 1 (pos 1000) (pos 700) august_rows (serve_any casing home 1 edits books)
serve_any-IsSealed_example =
    Sealed.serve_any-IsSealed casing home 50 1 (pos 1000) (pos 700) august_rows edits books
      (tt, (delete_apart, (tt, tt))) august-IsSealed

abbrev opened_books : Db
opened_books = (create_opening_balance casing 1 10 opened 21 books).1

abbrev opening_response : TransactionResponse
opening_response = record {
  row = record {
    id = 110;
    user_id = 1;
    title = 79 ∷ 112 ∷ 101 ∷ 110 ∷ 105 ∷ 110 ∷ 103 ∷ 32 ∷ 98 ∷ 97 ∷ 108 ∷ 97 ∷ 110 ∷ 99 ∷ 101 ∷ [];
    description = none;
    amount_cents = 5000;
    transaction_type = inflow;
    date = 9;
    account_id = 10;
    category_id = 21;
    inbox_id = none;
    reconciliation_id = none;
    created_at = 10;
    updated_at = 10;
    version = 1;
    deleted_at = none;
  };
  hashtag_ids = [];
}

cash_opened :
    create_opening_balance casing 1 10 opened 21 books ≡ (ok opening_response, opened_books)
unfolding create_opening_balance validate_active_account active_account_row ensure_system_category
    fetch_system_category seed_or_reread seed_category create_transaction db_now field_errors
    validate_active_category active_category_row reject_zero_amount insert_transaction_row
    clean_name normalize_name strip lstrip find exists select write_activity_log gets modify pure
    raise ◌>>=◌ same_text attach_hashtag_ids fetch_hashtag_ids infer_transaction_type sort_ids
    linked_ids
cash_opened = refl

create_opening_balance-again_example :
    create_opening_balance casing 1 10 opened 22 opened_books
    ≡ (err (conflict has_opening_balance), opened_books)
create_opening_balance-again_example =
    Opening.create_opening_balance-again casing 1 10 opened opened 21 22 books opening_response
      opened_books cash_opened
