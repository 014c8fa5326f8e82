-- ===== src/Rates.antt =====
-- app/helpers/exchange_rate.py: the carry-forward lookup and its cache in the process.
pub mod Decimals
pub mod Digits
pub mod Rounding
pub mod Latest
pub mod Cached
use expense_world_engine.Base.{
  ℕ, ◌+◌, Bool, not, ◌&&◌, Option, none, some, List, [], ◌∷◌, select, find, ltb, leb, ◌==◌,
  if◌then◌else◌,
}
use expense_world_engine.Schema.{Text, Decimal, ExchangeRate}
use expense_world_engine.Text.{same_text}
use expense_world_engine.Named.{Casing}
use Decimals.{inverse}

-- BASE_CURRENCY = "USD"
abbrev pub base_currency : Text
base_currency = 85 ∷ 83 ∷ 68 ∷ []

-- The rate and the date that it stands at
abbrev pub RateResult : Type 0
RateResult = Option (Decimal × ℕ)

abbrev pub one : Decimal
one = record { coefficient = 1; places = 0 }

-- WHERE base_currency = 'USD' AND target_currency = $1 AND rate_date <= $2
abbrev pub is_candidate : Text → ℕ → ExchangeRate → Bool
is_candidate target as_of r =
    (same_text r.base_currency base_currency && same_text r.target_currency target)
    && leb r.rate_date as_of

abbrev pub later_of : ExchangeRate → Option ExchangeRate → ExchangeRate
later_of r none = r
later_of r (some s) = if ltb r.rate_date s.rate_date then s else r

-- ORDER BY rate_date DESC LIMIT 1
unfoldable pub latest : List ExchangeRate → Option ExchangeRate
latest [] = none
latest (r ∷ rs) = some (later_of r (latest rs))

unfoldable pub carry_forward : List ExchangeRate → Text → ℕ → Option ExchangeRate
carry_forward rates target as_of = latest (select (is_candidate target as_of) rates)

abbrev pub as_is : Option ExchangeRate → RateResult
as_is none = none
as_is (some r) = some (r.rate, r.rate_date)

-- 1 / rate, and nothing for a rate of zero
abbrev pub inverted : Option ExchangeRate → RateResult
inverted none = none
inverted (some r) = if r.rate.coefficient == 0 then none else some (inverse r.rate, r.rate_date)

unfoldable pub fetch_rate_from_db : List ExchangeRate → Text → Text → ℕ → RateResult
fetch_rate_from_db rates source target as_of =
    if same_text source target
    then some (one, as_of)
    else if same_text source base_currency
    then as_is (carry_forward rates target as_of)
    else if same_text target base_currency
    then inverted (carry_forward rates source as_of)
    else none

pub record CacheKey : Type 0 where
  pub source : Text
  pub target : Text
  pub as_of : ℕ

pub record CacheEntry : Type 0 where
  pub key : CacheKey
  pub value : RateResult
  pub expires_at : ℕ

abbrev pub is_entry : CacheKey → CacheEntry → Bool
is_entry k e =
    same_text e.key.source k.source && (same_text e.key.target k.target && e.key.as_of == k.as_of)

-- In nanoseconds of the monotonic clock: an hour, and a minute where there is no rate
abbrev pub ttl : RateResult → ℕ
ttl none = 60000000000
ttl (some _) = 3600000000000

-- `del cache[key]`
unfoldable pub drop_entry : CacheKey → List CacheEntry → List CacheEntry
drop_entry k cache = select (λ e. not (is_entry k e)) cache

-- `cache[key] = (value, now + ttl)`
unfoldable pub set_entry : CacheKey → RateResult → ℕ → List CacheEntry → List CacheEntry
set_entry k v now cache =
    record { key = k; value = v; expires_at = now + ttl v } ∷ drop_entry k cache

unfoldable pub look_up :
    List ExchangeRate → ℕ → CacheKey → List CacheEntry → RateResult × List CacheEntry
look_up rates now k cache =
    let v = fetch_rate_from_db rates k.source k.target k.as_of in (v, set_entry k v now cache)

-- An expired entry is dropped on access.
unfoldable pub answer_from :
    List ExchangeRate
    → ℕ
    → CacheKey
    → List CacheEntry
    → Option CacheEntry
    → RateResult × List CacheEntry
answer_from rates now k cache none = look_up rates now k cache
answer_from rates now k cache (some e) =
    if ltb now e.expires_at then (e.value, cache) else look_up rates now k (drop_entry k cache)

-- `get_rate` with its key in upper case
unfoldable pub get_keyed :
    List ExchangeRate → ℕ → CacheKey → List CacheEntry → RateResult × List CacheEntry
get_keyed rates now k cache = answer_from rates now k cache (find (is_entry k) cache)

module _ (c : Casing) where
  open c use {py_upper}

  abbrev pub cache_key : Text → Text → ℕ → CacheKey
  cache_key source target as_of = record {
    source = py_upper source;
    target = py_upper target;
    as_of = as_of;
  }

  unfoldable pub get_rate :
      List ExchangeRate → ℕ → Text → Text → ℕ → List CacheEntry → RateResult × List CacheEntry
  get_rate rates now source target as_of cache =
      get_keyed rates now (cache_key source target as_of) cache

  -- One lookup for each distinct currency, in the order of the set; what has no rate is absent.
  unfoldable pub batch_get_rates :
      List ExchangeRate
      → ℕ
      → List Text
      → Text
      → ℕ
      → List CacheEntry
      → List (Text × Decimal) × List CacheEntry
  batch_get_rates rates now [] target as_of cache = ([], cache)
  batch_get_rates rates now (currency ∷ rest) target as_of cache =
      let (found, cache') = get_rate rates now currency target as_of cache in
      let (rates', cache'') = batch_get_rates rates now rest target as_of cache' in
      (elim found [ none ↦ rates' | some p ↦ (currency, p.0) ∷ rates' ], cache'')
