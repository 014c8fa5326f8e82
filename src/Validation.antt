-- ===== src/Validation.antt =====
-- app/helpers/validation.py: the reference rules and the small predicates that every flow shares.
pub mod Cleaned
use expense_world_engine.Base.{
  ℕ, Bool, false, not, ◌&&◌, ◌||◌, Option, none, some, List, [], ◌∷◌, find, exists, leb, ◌==◌,
  is_none, if◌then◌else◌,
}
use expense_world_engine.Base.Int.{ℤ, is_zero}
use expense_world_engine.Schema.{Text, Account, Category}
use expense_world_engine.Exec.{
  Exec, Field, Msg, account_id, category_id, not_empty, not_zero, active_account, active_category,
  color, hex_color, unsupported_currency, validation_failed, validation_error, pure, gets, raise_if,
  or_raise, ◌>>=◌,
}
use expense_world_engine.Text.{clean_name, same_text}

-- `if test: errors[field] = message`
abbrev pub flag : Bool → Field → Msg → List (Field × Msg)
flag b f m = if b then (f, m) ∷ [] else []

abbrev pub is_active_account : ℕ → ℕ → Account → Bool
is_active_account i u a =
    (a.id == i && a.user_id == u) && (is_none a.deleted_at && not a.is_archived)

unfoldable pub active_account_row : ℕ → ℕ → Exec (Option Account)
active_account_row i u = gets (λ db. find (is_active_account i u) db.accounts)

unfoldable pub validate_active_account : ℕ → ℕ → Exec Account
validate_active_account i u = do
  account ← active_account_row i u
  or_raise account (validation_error validation_failed ((account_id, active_account) ∷ []))

abbrev pub is_active_category : ℕ → ℕ → Category → Bool
is_active_category i u c = (c.id == i && c.user_id == u) && is_none c.deleted_at

unfoldable pub active_category_row : ℕ → ℕ → Exec (Option Category)
active_category_row i u = gets (λ db. find (is_active_category i u) db.categories)

unfoldable pub validate_active_category : ℕ → ℕ → Exec Category
validate_active_category i u = do
  category ← active_category_row i u
  or_raise category (validation_error validation_failed ((category_id, active_category) ∷ []))

unfoldable pub normalize_name : Text → Field → Exec Text
normalize_name t f =
    or_raise (clean_name (some t)) (validation_error validation_failed ((f, not_empty) ∷ []))

-- raises iff the value is zero
unfoldable pub reject_zero_amount : ℤ → Field → Exec Unit
reject_zero_amount v f =
    raise_if (is_zero v) (validation_error validation_failed ((f, not_zero) ∷ []))

-- `[0-9a-fA-F]`
abbrev pub is_hex : ℕ → Bool
is_hex c = (leb 48 c && leb c 57) || ((leb 65 c && leb c 70) || (leb 97 c && leb c 102))

-- `#[0-9a-fA-F]{6}`, of the whole text
unfoldable pub is_hex_color : Text → Bool
is_hex_color (h ∷ r ∷ s ∷ g ∷ i ∷ b ∷ c ∷ []) =
    h == 35 && (is_hex r && (is_hex s && (is_hex g && (is_hex i && (is_hex b && is_hex c)))))
is_hex_color _ = false

-- `None` passes
unfoldable pub validate_color : Option Text → Exec Unit
validate_color none = pure tt
validate_color (some t) =
    raise_if (not (is_hex_color t)) (validation_error validation_failed ((color, hex_color) ∷ []))

unfoldable pub currency_code_error : Text → Exec (Option Msg)
currency_code_error code = do
  known ← gets (λ db. exists (same_text code) db.global_currencies)
  pure (if known then none else some unsupported_currency)

-- `SELECT now()`
unfoldable pub db_now : Exec ℕ
db_now = gets (λ db. db.now)
