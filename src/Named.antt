-- ===== src/Named.antt =====
-- app/helpers/reference_data.py: what accounts, categories and hashtags have in common.
pub mod Order
pub mod Unique
pub mod Names
pub mod Changes
pub mod Keeps
pub mod Closed
use expense_world_engine.Base.{
  ℕ, suc, ◌-◌, Bool, true, not, ◌&&◌, ◌||◌, Option, none, some, List, [], ◌∷◌, exists, select, map,
  leb, ◌==◌, is_none, if◌then◌else◌,
}
use expense_world_engine.Base.Int.{ℤ, pos, negsuc, ◌+ℤ◌}
use expense_world_engine.Schema.{Text, Account, Category, Hashtag, Resource, Snapshot, updated, Db}
use expense_world_engine.Schema.Tables.{Table}
use expense_world_engine.Schema.Tables
use expense_world_engine.Exec.{
  Exec, Field, name, name_exists, internal_error, not_found, conflict, pure, gets, raise, raise_if,
  or_raise, for_some, ◌>>=◌, ◌>>◌,
}
use expense_world_engine.Text.{same_text}
use expense_world_engine.Validation.{normalize_name, validate_color}
use expense_world_engine.Query.{fetch_owned_row_or_404, dynamic_update, write_activity_log}

-- The two folds of case: Postgres' LOWER, whose result depends on the collation of the database,
-- and Python's `str.lower` and `str.upper`, which follow the Unicode version of the interpreter.
pub record Casing : Type 0 where
  pub sql_lower : Text → Text
  pub py_lower : Text → Text
  pub py_upper : Text → Text

-- The columns that the helpers name besides those of every table.
pub record NamedTable (R : Type 0) : Type 0 where
  pub table : Table R
  pub name_of : R → Text
  pub sort_order_of : R → ℤ
  -- currency_code; only accounts have the column
  pub currency_of : R → Text

abbrev pub accounts : NamedTable Account
accounts = record {
  table = Tables.accounts;
  name_of = λ r. r.name;
  sort_order_of = λ r. r.sort_order;
  currency_of = λ r. r.currency_code;
}

abbrev pub categories : NamedTable Category
categories = record {
  table = Tables.categories;
  name_of = λ r. r.name;
  sort_order_of = λ r. r.sort_order;
  currency_of = λ r. [];
}

abbrev pub hashtags : NamedTable Hashtag
hashtags = record {
  table = Tables.hashtags;
  name_of = λ r. r.name;
  sort_order_of = λ r. r.sort_order;
  currency_of = λ r. [];
}

-- An optional condition: absent, it holds.
abbrev pub if_given : {A : Type 0} → Option A → (A → Bool) → Bool
if_given none p = true
if_given (some a) p = p a

-- -2^31 ≤ n < 2^31
abbrev pub fits_int4 : ℤ → Bool
fits_int4 (pos n) = leb n 2147483647
fits_int4 (negsuc n) = leb n 2147483647

-- A parameter that does not fit an `integer` column is refused by the driver, untranslated.
unfoldable pub check_int4 : Option ℤ → Exec Unit
check_int4 none = pure tt
check_int4 (some n) = raise_if (not (fits_int4 n)) internal_error

abbrev pub leb_ℤ : ℤ → ℤ → Bool
leb_ℤ (pos m) (pos n) = leb m n
leb_ℤ (pos m) (negsuc n) = Bool.false
leb_ℤ (negsuc m) (pos n) = true
leb_ℤ (negsuc m) (negsuc n) = leb n m

abbrev pub max_of : ℤ → Option ℤ → ℤ
max_of n none = n
max_of n (some m) = if leb_ℤ m n then n else m

-- SELECT MAX(…): NULL over no rows
unfoldable pub maximum : List ℤ → Option ℤ
maximum [] = none
maximum (n ∷ ns) = some (max_of n (maximum ns))

-- COALESCE(MAX(sort_order) + 1, 0), in `integer`
abbrev pub successor : Option ℤ → ℤ
successor none = pos 0
successor (some m) = m +ℤ pos 1

module _ {R : Type 0} (t : NamedTable R) where
  open t use {table, name_of, sort_order_of, currency_of}

  -- The rows of a user's collection, deleted ones too; `scope` is the optional column test.
  abbrev pub is_in_collection : ℕ → Option (R → Bool) → R → Bool
  is_in_collection u scope r = table.owner_of r == u && if_given scope (λ p. p r)

  unfoldable pub next_sort_order : ℕ → Option (R → Bool) → Exec ℤ
  next_sort_order u scope = do
    next ← gets (λ db.
        successor (maximum (map sort_order_of (select (is_in_collection u scope) (table.rows db)))))
    raise_if (not (fits_int4 next)) internal_error
    pure next

  -- `sort_order if sort_order is not None else await next_sort_order(…)`, bound to the INSERT
  unfoldable pub choose_sort_order : ℕ → Option (R → Bool) → Option ℤ → Exec ℤ
  choose_sort_order u scope sent = do check_int4 sent; for_some sent (next_sort_order u scope) pure

  module _ (c : Casing) where
    open c use {sql_lower}

    abbrev pub holds_name : ℕ → Text → Option ℕ → Option Text → R → Bool
    holds_name u n exclude currency r =
        (table.owner_of r == u && same_text (sql_lower (name_of r)) (sql_lower n))
        && (is_none (table.deleted_of r)
            && (if_given currency (same_text (currency_of r))
                && if_given exclude (λ i. not (table.id_of r == i))))

    unfoldable pub name_taken : ℕ → Text → Option ℕ → Option Text → Exec Bool
    name_taken u n exclude currency =
        gets (λ db. exists (holds_name u n exclude currency) (table.rows db))

-- A PUT of a category or a hashtag: the fields that were sent.
pub record NamedFields : Type 0 where
  pub name : Option Text
  pub color : Option Text
  pub sort_order : Option ℤ

-- `not fields`
abbrev pub is_empty : NamedFields → Bool
is_empty f = is_none f.name && (is_none f.color && is_none f.sort_order)

module _ (c : Casing) {R : Type 0} (t : NamedTable R) where
  open t use {table}

  -- The rename: strip, veto, uniqueness. It is the normalized name that the UPDATE sets.
  unfoldable pub check_rename :
      ℕ → ℕ → Option Text → R → Option Text → (R → Text → Exec Unit) → Exec (Option Text)
  check_rename u i currency before_row none veto = pure none
  check_rename u i currency before_row (some n) veto = do
    cleaned ← normalize_name n Field.name
    veto before_row cleaned
    taken ← name_taken t c u cleaned (some i) currency
    raise_if taken (conflict name_exists)
    pure (some cleaned)

  unfoldable pub update_nonempty :
      ℕ
      → Resource
      → ℕ
      → NamedFields
      → (NamedFields → R → R)
      → (R → Snapshot)
      → (R → Text → Exec Unit)
      → Exec Snapshot
  update_nonempty u noun i fields set serialize veto = do
    before_row ← fetch_owned_row_or_404 table i u noun Bool.false
    validate_color fields.color
    renamed ← check_rename u i none before_row fields.name veto
    check_int4 fields.sort_order
    changed ← dynamic_update table (set (record fields { name = renamed })) i u
    after_row ← or_raise changed (not_found noun)
    write_activity_log u noun i updated (some (serialize before_row)) (some (serialize after_row))
    pure (serialize after_row)

  unfoldable pub update_named_resource :
      ℕ
      → Resource
      → ℕ
      → NamedFields
      → (NamedFields → R → R)
      → (R → Snapshot)
      → (R → Text → Exec Unit)
      → Exec Snapshot
  update_named_resource u noun i fields set serialize veto =
      if is_empty fields
      then (do row ← fetch_owned_row_or_404 table i u noun Bool.false; pure (serialize row))
      else update_nonempty u noun i fields set serialize veto
