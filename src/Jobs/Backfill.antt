-- ===== src/Jobs/Backfill.antt =====
-- app/jobs/backfill_exchange_rates.py: the days that it asks for, its retries, and what it stores.
-- Days are counted as `date.toordinal` counts them.
pub mod Done
pub mod Grows
use expense_world_engine.Base.{
  ℕ, zero, suc, ◌+◌, ◌-◌, Bool, true, false, not, ◌&&◌, Option, none, some, List, [], ◌∷◌, ◌++◌,
  map, select, exists, ltb, leb, ◌==◌, length, if◌then◌else◌,
}
use expense_world_engine.Schema.{Text, ExchangeRate}
use expense_world_engine.Text.{same_text}
use expense_world_engine.Rates.{base_currency}
use expense_world_engine.HomeBalance.{distinct}
use expense_world_engine.Jobs.{Quote, Upsert, Tally, apply_rates}

-- PROVIDER_FLOOR = date(2024, 3, 2)
abbrev pub provider_floor : ℕ
provider_floor = 738947

-- A row of a target on a day: target_currency = ANY($1)
abbrev pub is_one_of : List Text → ℕ → ExchangeRate → Bool
is_one_of targets day r =
    (same_text r.base_currency base_currency && exists (same_text r.target_currency) targets)
    && r.rate_date == day

-- HAVING count(DISTINCT target_currency) = $4
unfoldable pub is_done : List ExchangeRate → List Text → ℕ → Bool
is_done table targets day =
    length (
      distinct
        (map (λ (r : ExchangeRate). r.target_currency) (select (is_one_of targets day) table)))
    == length targets

-- The days from one on, as many as said
unfoldable pub days_from : ℕ → ℕ → List ℕ
days_from start zero = []
days_from start (suc n) = start ∷ days_from (suc start) n

-- One request for a day: its rates, a 404, a fault that is retried, or any other exception
pub data FetchTry : Type 0 where
  answered : (Text → Option Quote) → FetchTry
  not_found transient_fault other_fault : FetchTry

pub data Fetched : Type 0 where
  payload : (Text → Option Quote) → Fetched
  gap fault : Fetched

abbrev pub after_fetch : FetchTry → Fetched → Fetched
after_fetch (answered rates) rest = payload rates
after_fetch not_found rest = gap
after_fetch transient_fault rest = rest
after_fetch other_fault rest = fault

unfoldable pub fetch_tries : (ℕ → FetchTry) → ℕ → ℕ → Fetched
fetch_tries try zero n = fault
fetch_tries try (suc tries) n = after_fetch (try n) (fetch_tries try tries (suc n))

-- FETCH_ATTEMPTS = 3
unfoldable pub fetch_one_date : (ℕ → FetchTry) → Fetched
fetch_one_date try = fetch_tries try 3 1

pub record Progress : Type 0 where
  pub inserted : ℕ
  pub gaps : List ℕ
  pub missing : List (ℕ × Text)
  -- a day that was not fetched, or a rate that was refused
  pub failed : List (ℕ × Option (Text × Upsert))

abbrev pub no_progress : Progress
no_progress = record { inserted = 0; gaps = []; missing = []; failed = [] }

abbrev pub add_tally : ℕ → Tally → Progress → Progress
add_tally day y p = record {
  inserted = length y.inserted + p.inserted;
  gaps = p.gaps;
  missing = map (λ t. (day, t)) y.missing ++ p.missing;
  failed = map (λ f. (day, some f)) y.failed ++ p.failed;
}

-- What one day that arrives does to the progress and to the table
unfoldable pub store_day :
    List ExchangeRate → List Text → ℕ → Fetched → (Progress → Progress) × List ExchangeRate
store_day table targets day gap = ((λ p. record p { gaps = day ∷ p.gaps }), table)
store_day table targets day fault = ((λ p. record p { failed = (day, none) ∷ p.failed }), table)
store_day table targets day (payload rates) =
    let (tally, table') = apply_rates table targets rates day in (add_tally day tally, table')

unfoldable pub store_days :
    (ℕ → ℕ → FetchTry) → List Text → List ℕ → List ExchangeRate → Progress × List ExchangeRate
store_days fetch targets [] table = (no_progress, table)
store_days fetch targets (day ∷ days) table =
    let (step, table') = store_day table targets day (fetch_one_date (fetch day)) in
    let (progress, table'') = store_days fetch targets days table' in (step progress, table'')

abbrev pub is_nil : {A : Type 0} → List A → Bool
is_nil [] = true
is_nil (x ∷ xs) = false

abbrev pub exit_code : Progress → ℕ
exit_code p = if is_nil p.failed && is_nil p.missing then 0 else 2

unfoldable pub days_to_fetch : List ExchangeRate → List Text → ℕ → ℕ → List ℕ
days_to_fetch table targets start end =
    select (λ day. not (is_done table targets day)) (days_from start (suc (end - start)))

-- A run with its connection; `targets` are those asked for, or those in use, and `order` is the
-- order in which the fetches complete.
unfoldable pub backfill :
    (ℕ → ℕ → FetchTry)
    → (List ℕ → List ℕ)
    → ℕ
    → ℕ
    → List Text
    → List ExchangeRate
    → ℕ × List ExchangeRate
backfill fetch order start end targets table =
    let (progress, table') =
      store_days fetch targets (order (days_to_fetch table targets start end)) table in
    if ltb start provider_floor
    then (2, table)
    else if ltb end start
    then (2, table)
    else if is_nil targets
    then (0, table)
    else (exit_code progress, table')
