-- ===== src/HomeCurrency.antt =====
-- app/helpers/home_currency.py: the SQL fragments that convert one ledger row, as functions on the
-- row, its joined account and the rate table.
pub mod Parity
use expense_world_engine.Base.{
  ℕ, suc, ◌*◌, ◌/◌, ◌%◌, ◌^◌, Bool, true, false, ◌&&◌, not, Option, none, some, List, select, find,
  leb, ◌==◌, is_none, if◌then◌else◌,
}
use expense_world_engine.Base.Int.{ℤ, pos}
use expense_world_engine.Schema.{Text, Decimal, ExchangeRate, Account, Transaction}
use expense_world_engine.Text.{same_text}
use expense_world_engine.Rates.{base_currency, latest}
use expense_world_engine.HomeBalance.{home_currency}
use expense_world_engine.Ledger.Balance.{signed}

-- `round(numeric)` of Postgres on n / d: half away from zero, of a magnitude
unfoldable pub sql_round : ℕ → ℕ → ℕ
sql_round n d = if leb d (2 * (n % d)) then suc (n / d) else n / d

-- WHERE base_currency = 'USD' AND target_currency = 'PEN' AND rate_date <= the row's day
abbrev pub is_home_rate : ℕ → ExchangeRate → Bool
is_home_rate day r =
    (same_text r.base_currency base_currency && same_text r.target_currency home_currency)
    && leb r.rate_date day

-- The LATERAL join of one row on `day`, with its ON clauses; an absent account is NULL there.
unfoldable pub home_rate : List ExchangeRate → Option Account → ℕ → Option Decimal
home_rate rates none day = none
home_rate rates (some a) day =
    if not (same_text a.currency_code home_currency) && same_text a.currency_code base_currency
    then elim (latest (select (is_home_rate day) rates)) [ none ↦ none | some r ↦ some r.rate ]
    else none

-- round(t.amount_cents * r.rate)
abbrev pub converted : ℕ → Option Decimal → Option ℕ
converted n none = none
converted n (some r) = some (sql_round (n * r.coefficient) (10 ^ r.places))

-- HOME_CENTS_EXPR: NULL is unconvertible
unfoldable pub home_cents : List ExchangeRate → Option Account → ℕ → Transaction → Option ℕ
home_cents rates none day t = converted t.amount_cents none
home_cents rates (some a) day t =
    if same_text a.currency_code home_currency
    then some t.amount_cents
    else converted t.amount_cents (home_rate rates (some a) day)

abbrev pub apply_sign : Transaction → Option ℕ → Option ℤ
apply_sign t none = none
apply_sign t (some n) = some (signed t.transaction_type n)

-- SIGNED_HOME_CENTS_EXPR
unfoldable pub signed_home_cents : List ExchangeRate → Option Account → ℕ → Transaction → Option ℤ
signed_home_cents rates a day t = apply_sign t (home_cents rates a day t)

-- UNCONVERTIBLE_FLAG_EXPR of a row that is there
unfoldable pub is_unconvertible : List ExchangeRate → Option Account → ℕ → Transaction → Bool
is_unconvertible rates a day t = is_none (home_cents rates a day t)
