-- ===== src/Jobs.antt =====
-- app/jobs/fetch_exchange_rates.py: which provider rates the job stores, and its wait for the
-- database.
pub mod Accepts
pub mod Wait
pub mod Backfill
use expense_world_engine.Base.{
  ℕ, zero, suc, ◌+◌, ◌-◌, ◌*◌, ◌^◌, Bool, true, false, not, ◌&&◌, Option, none, some, List, [], ◌∷◌,
  map, select, ◌++◌, exists, ltb, leb, ◌==◌, is_none, if◌then◌else◌,
}
use expense_world_engine.Base.Int.{ℤ, pos, negsuc}
use expense_world_engine.Schema.{Text, Decimal, ExchangeRate, Account, UserSettings, Db}
use expense_world_engine.Text.{same_text, precedes}
use expense_world_engine.Rates.{base_currency, latest}

-- `set` and `sorted` on strings, in one
unfoldable pub insert_text : Text → List Text → List Text
insert_text t [] = t ∷ []
insert_text t (s ∷ ss) =
    let rest = insert_text t ss in
    if same_text t s then s ∷ ss else if precedes t s then t ∷ s ∷ ss else s ∷ rest

unfoldable pub sorted_set : List Text → List Text
sorted_set [] = []
sorted_set (t ∷ ts) = insert_text t (sorted_set ts)

abbrev pub is_priced : Account → Bool
is_priced a =
    (is_none a.deleted_at && not a.is_archived) && not (same_text a.currency_code base_currency)

unfoldable pub fetch_target_currencies : List Account → List UserSettings → List Text
fetch_target_currencies accounts settings = sorted_set (
    map (λ (a : Account). a.currency_code) (select is_priced accounts)
    ++ map (λ (s : UserSettings). s.main_currency)
        (select (λ (s : UserSettings). not (same_text s.main_currency base_currency)) settings))

-- A number of the provider, of either sign
pub record Quote : Type 0 where
  pub coefficient : ℤ
  pub places : ℕ

-- `rate <= 0` is none.
abbrev pub positive : ℕ → ℤ → Option Decimal
positive places (pos zero) = none
positive places (pos (suc n)) = some (record { coefficient = suc n; places = places })
positive places (negsuc n) = none

-- MAX_BASELINE_GAP_DAYS = 7: strictly before the date, and no further back than that
abbrev pub is_baseline : Text → ℕ → ExchangeRate → Bool
is_baseline target rate_date r =
    (same_text r.base_currency base_currency && same_text r.target_currency target)
    && (ltb r.rate_date rate_date && leb rate_date (r.rate_date + 7))

unfoldable pub baseline_rate : List ExchangeRate → Text → ℕ → Option ExchangeRate
baseline_rate table target rate_date = latest (select (is_baseline target rate_date) table)

abbrev pub distance : ℕ → ℕ → ℕ
distance m n = (m - n) + (n - m)

-- `abs(rate - baseline_rate) / baseline_rate > Decimal("0.10")`, at a common scale. The CHECK of
-- sql/027 keeps the divisor positive.
abbrev pub is_implausible : Decimal → Decimal → Bool
is_implausible rate baseline = ltb (baseline.coefficient * 10 ^ rate.places) (
    10
    * distance (rate.coefficient * 10 ^ baseline.places) (baseline.coefficient * 10 ^ rate.places))

-- What `_upsert_rate` returns, or why it raises
pub data Upsert : Type 0 where
  inserted skipped non_positive implausible : Upsert

abbrev pub is_rate_of : Text → ℕ → ExchangeRate → Bool
is_rate_of target rate_date r =
    (same_text r.base_currency base_currency && same_text r.target_currency target)
    && r.rate_date == rate_date

abbrev pub new_rate : Text → ℕ → Decimal → ExchangeRate
new_rate target rate_date rate = record {
  base_currency = base_currency;
  target_currency = target;
  rate = rate;
  rate_date = rate_date;
}

-- ON CONFLICT (base_currency, target_currency, rate_date) DO NOTHING
unfoldable pub insert_rate : List ExchangeRate → Text → ℕ → Decimal → Upsert × List ExchangeRate
insert_rate table target rate_date rate =
    if exists (is_rate_of target rate_date) table
    then (skipped, table)
    else (inserted, new_rate target rate_date rate ∷ table)

unfoldable pub check_move :
    List ExchangeRate → Text → ℕ → Decimal → Option ExchangeRate → Upsert × List ExchangeRate
check_move table target rate_date rate none = insert_rate table target rate_date rate
check_move table target rate_date rate (some b) =
    if is_implausible rate b.rate
    then (implausible, table)
    else insert_rate table target rate_date rate

unfoldable pub check_sign :
    List ExchangeRate → Text → ℕ → Option Decimal → Upsert × List ExchangeRate
check_sign table target rate_date none = (non_positive, table)
check_sign table target rate_date (some rate) =
    check_move table target rate_date rate (baseline_rate table target rate_date)

unfoldable pub upsert_rate : List ExchangeRate → Text → ℕ → Quote → Upsert × List ExchangeRate
upsert_rate table target rate_date rate =
    check_sign table target rate_date (positive rate.places rate.coefficient)

-- The targets by what became of them; a failed one with its reason
pub record Tally : Type 0 where
  pub inserted : List Text
  pub skipped : List Text
  pub missing : List Text
  pub failed : List (Text × Upsert)

abbrev pub no_tally : Tally
no_tally = record { inserted = []; skipped = []; missing = []; failed = [] }

abbrev pub count_in : Text → Upsert → Tally → Tally
count_in t Upsert.inserted y = record y { inserted = t ∷ y.inserted }
count_in t Upsert.skipped y = record y { skipped = t ∷ y.skipped }
count_in t non_positive y = record y { failed = (t, non_positive) ∷ y.failed }
count_in t implausible y = record y { failed = (t, implausible) ∷ y.failed }

-- What one target of the response does to the tally and the table
unfoldable pub apply_rate :
    List ExchangeRate → Text → ℕ → Option Quote → (Tally → Tally) × List ExchangeRate
apply_rate table t rate_date none = ((λ y. record y { missing = t ∷ y.missing }), table)
apply_rate table t rate_date (some q) =
    let (outcome, table') = upsert_rate table t rate_date q in (count_in t outcome, table')

-- `rates` is the dict of the response.
unfoldable pub apply_rates :
    List ExchangeRate → List Text → (Text → Option Quote) → ℕ → Tally × List ExchangeRate
apply_rates table [] rates rate_date = (no_tally, table)
apply_rates table (t ∷ ts) rates rate_date =
    let (count, table') = apply_rate table t rate_date (rates t) in
    let (tally, table'') = apply_rates table' ts rates rate_date in (count tally, table'')

-- How one try to connect ends: with a pool, with a fault of a database that is coming up, or with
-- a real one
pub data Attempt : Type 0 where
  connected transient fatal : Attempt

-- The pool of which try, or none, or the exception of which try
pub data Pool : Type 0 where
  pool_at raised_at : ℕ → Pool
  no_pool : Pool

-- What a try, the `n`-th, makes of the wait that is left
abbrev pub after_try : Attempt → ℕ → Pool → Pool
after_try connected n rest = pool_at n
after_try transient n rest = rest
after_try fatal n rest = raised_at n

unfoldable pub wait_for_db : (ℕ → Attempt) → ℕ → ℕ → Pool
wait_for_db try zero n = no_pool
wait_for_db try (suc tries) n = after_try (try n) n (wait_for_db try tries (suc n))

-- DB_CONNECT_TRIES = 30, counted from 1
unfoldable pub create_pool : (ℕ → Attempt) → Pool
create_pool try = wait_for_db try 30 1

-- What the provider answers: `urlopen` or the parser raises, a key or the date is malformed, or a
-- date and its rates
pub data Answer : Type 0 where
  no_answer malformed : Answer
  rates_on : ℕ → (Text → Option Quote) → Answer

abbrev is_nil : {A : Type 0} → List A → Bool
is_nil [] = true
is_nil (x ∷ xs) = false

abbrev pub is_clean : Tally → Bool
is_clean y = is_nil y.missing && is_nil y.failed

-- A run with its connection: the exit code and the table
unfoldable pub run_on : List Text → Answer → List ExchangeRate → ℕ × List ExchangeRate
run_on [] response table = (0, table)
run_on (t ∷ ts) no_answer table = (2, table)
run_on (t ∷ ts) malformed table = (2, table)
run_on (t ∷ ts) (rates_on rate_date rates) table =
    let (tally, table') = apply_rates table (t ∷ ts) rates rate_date in
    (if is_clean tally then 0 else 2, table')
