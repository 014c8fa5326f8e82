-- ===== src/Accounts/Rows.antt =====
-- The rows and request bodies of app/helpers/accounts.py and app/schemas/accounts.py.
use expense_world_engine.Base.{
  ℕ, Bool, false, true, not, Option, none, [], ◌∷◌, exists, ◌==◌, or_else,
}
use expense_world_engine.Base.Int.{ℤ}
use expense_world_engine.Schema.{Text, Account, AccountResponse, Snapshot}
use expense_world_engine.Schema.Tables
use expense_world_engine.Exec.{
  Exec, already_exists, conflict, pure, gets, modify, raise_if, ◌>>=◌, ◌>>◌,
}
use expense_world_engine.Named.{NamedFields}

-- DEFAULT_ACCOUNT_COLOR = "#3b82f6"
abbrev default_color : Text
default_color = 35 ∷ 51 ∷ 98 ∷ 56 ∷ 50 ∷ 102 ∷ 54 ∷ []

pub record NewAccount : Type 0 where
  pub id : ℕ
  pub name : Text
  pub currency_code : Text
  pub color : Option Text
  pub sort_order : Option ℤ
  pub is_person : Bool

abbrev pub new_account : ℕ → ℕ → NewAccount → Text → ℤ → Account
new_account now u n name order = record {
  id = n.id;
  user_id = u;
  name = name;
  currency_code = n.currency_code;
  is_person = n.is_person;
  color = or_else n.color default_color;
  is_archived = false;
  sort_order = order;
  created_at = now;
  updated_at = now;
  version = 1;
  deleted_at = none;
}

-- The INSERT, whose primary key refuses an id that stands in the table.
unfoldable pub insert_account : ℕ → NewAccount → Text → ℤ → Exec Account
insert_account u n name order = do
  taken ← gets (λ db. exists (λ r. r.id == n.id) db.accounts)
  now ← gets (λ db. db.now)
  raise_if taken (conflict already_exists)
  modify (λ db. record db { accounts = new_account now u n name order ∷ db.accounts })
  pure (new_account now u n name order)

-- `is_person = $n`
abbrev pub in_section : Bool → Account → Bool
in_section true r = r.is_person
in_section false r = not r.is_person

abbrev pub snapshot : AccountResponse → Snapshot
snapshot = Snapshot.account

-- A PUT of an account; `currency_code` is accepted and then refused.
pub record AccountFields : Type 0 where
  pub named : NamedFields
  pub currency_code : Option Text

abbrev pub set_account : NamedFields → Account → Account
set_account f r = record r {
  name = or_else f.name r.name;
  color = or_else f.color r.color;
  sort_order = or_else f.sort_order r.sort_order;
}

abbrev pub archived : Bool → ℕ → Account → Account
archived b now r = Tables.accounts.touched now (record r { is_archived = b })
