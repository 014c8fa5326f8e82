-- ===== src/HomeBalance.antt =====
-- app/helpers/settings.py, the time-zone fallback of app/helpers/validation.py, and the conversion
-- of balances in app/helpers/account_balance.py.
pub mod Reads
use expense_world_engine.Base.{
  ℕ, ◌≡◌, Bool, not, Option, none, some, List, [], ◌∷◌, find, exists, map, ◌==◌, if◌then◌else◌,
}
use expense_world_engine.Base.Int.{ℤ}
use expense_world_engine.Schema.{Text, Decimal, UserSettings, Db}
use expense_world_engine.Exec.{
  Exec, settings_missing, internal_error, pure, gets, raise_if, or_raise, ◌>>=◌, ◌>>◌,
}
use expense_world_engine.Text.{same_text}
use expense_world_engine.Named.{Casing}
use expense_world_engine.Rates.{CacheEntry, RateResult, get_rate, batch_get_rates}
use expense_world_engine.Rates.Decimals.{to_home_cents}

-- HOME_CURRENCY = "PEN"
abbrev pub home_currency : Text
home_currency = 80 ∷ 69 ∷ 78 ∷ []

-- The time-zone database: `ZoneInfo(key)` raises or not, and gives the calendar day of an instant.
pub record Zones : Type 0 where
  pub is_zone : Text → Bool
  pub local_date : Text → ℕ → ℕ

-- What a request reads from its process: the clocks, the zones, the folds of case.
pub record Process : Type 0 where
  pub casing : Casing
  pub zones : Zones
  pub utc_now : ℕ
  pub monotonic : ℕ

-- "UTC"
abbrev pub utc : Text
utc = 85 ∷ 84 ∷ 67 ∷ []

unfoldable pub resolve_timezone : Zones → Text → Text
resolve_timezone z t = if z.is_zone t then t else utc

unfoldable pub rate_lookup_date : Process → Text → ℕ
unfolding resolve_timezone
rate_lookup_date p t = p.zones.local_date (resolve_timezone p.zones t) p.utc_now

-- A currency that is not the home currency is a RuntimeError, which nothing translates.
unfoldable pub get_user_report_settings : ℕ → Exec UserSettings
get_user_report_settings u = do
  found ← gets (λ db. find (λ s. s.user_id == u) db.user_settings)
  row ← or_raise found settings_missing
  raise_if (not (same_text row.main_currency home_currency)) internal_error
  pure row

abbrev pub convert : ℤ → RateResult → Option ℤ
convert balance none = none
convert balance (some r) = some (to_home_cents balance r.0)

-- Beside the value comes the cache that the lookup leaves.
unfoldable pub fetch_home_balance :
    Process → List CacheEntry → ℕ → Text → ℤ → Exec (Option ℤ × List CacheEntry)
fetch_home_balance p cache u currency_code balance_cents = do
  settings ← get_user_report_settings u
  found ← gets (λ db.
      get_rate p.casing db.exchange_rates p.monotonic currency_code settings.main_currency
        (rate_lookup_date p settings.display_timezone) cache)
  pure (convert balance_cents found.0, found.1)

-- An account, its currency and its balance
abbrev pub Figure : Type 0
Figure = ℕ × (Text × ℤ)

unfoldable pub distinct : List Text → List Text
distinct [] = []
distinct (t ∷ ts) = let rest = distinct ts in if exists (same_text t) rest then rest else t ∷ rest

-- `rate_by_currency.get(currency)`
unfoldable pub rate_for : Text → List (Text × Decimal) → Option Decimal
rate_for c [] = none
rate_for c (p ∷ ps) = if same_text p.0 c then some p.1 else rate_for c ps

abbrev convert_at : ℤ → Option Decimal → Option ℤ
convert_at balance none = none
convert_at balance (some r) = some (to_home_cents balance r)

unfoldable pub fetch_home_balances :
    Process → List CacheEntry → Text → ℕ → List Figure → Exec (List (ℕ × Option ℤ))
fetch_home_balances p cache main_currency today figures = do
  rates ← gets (λ db.
      (batch_get_rates p.casing db.exchange_rates p.monotonic
        (distinct (map (λ (f : Figure). f.1.0) figures)) main_currency today cache).0)
  pure (map (λ (f : Figure). (f.0, convert_at f.1.1 (rate_for f.1.0 rates))) figures)

-- What the accounts need of the conversion: a value for a balance, read without a write.
pub record HomeBalance : Type 0 where
  pub home_balance : ℕ → Text → ℤ → Exec (Option ℤ)
  pub reads :
      (u : ℕ) (currency : Text) (cents : ℤ) (db : Db) → (home_balance u currency cents db).1 ≡ db
