-- ===== src/Tests/Rates.antt =====
-- The rate lookup on a small table.
use expense_world_engine.Base.{ℕ, zero, suc, ◌≡◌, refl, some, List, [], ◌∷◌, All, map, arith}
use expense_world_engine.Schema.{ExchangeRate}
use expense_world_engine.Rates.{base_currency, carry_forward, fetch_rate_from_db}
use expense_world_engine.Rates.Decimals.{digits, round_half_even, reciprocal, quantize_8, inverse}
use expense_world_engine.Rates.Latest.{IsLatest}
use expense_world_engine.Rates.Latest
use expense_world_engine.Rates.Cached.{Request, serve_rates, IsRecent}
use expense_world_engine.Rates.Cached
use expense_world_engine.HomeBalance.{home_currency, convert}
use expense_world_engine.HomeCurrency.{signed_home_cents}
use expense_world_engine.HomeCurrency.Parity
use expense_world_engine.Ledger.Balance.{signed_cents}
use expense_world_engine.Tests.Data.{cash, dinner}

-- 3.70 on day 3 and 3.755 on day 6
abbrev pub rates : List ExchangeRate
rates =
    record {
      base_currency = base_currency;
      target_currency = home_currency;
      rate = record { coefficient = 370; places = 2 };
      rate_date = 3;
    }
    ∷ record {
      base_currency = base_currency;
      target_currency = home_currency;
      rate = record { coefficient = 3755; places = 3 };
      rate_date = 6;
    }
    ∷ []

-- 1 / 3.70
inverse_test :
    inverse (record { coefficient = 370; places = 2 })
    ≡ record { coefficient = 27027027; places = 8 }
unfolding inverse quantize_8 reciprocal digits round_half_even
inverse_test = refl

carry_forward-IsLatest_example :
    IsLatest rates home_currency 5 (carry_forward rates home_currency 5)
carry_forward-IsLatest_example = Latest.carry_forward-IsLatest home_currency 5 rates

-- The table gets its second row between two requests.
abbrev growing : ℕ → List ExchangeRate
growing zero = []
growing (suc n) = rates

abbrev asked : List Request
asked =
    record {
      key = record { source = base_currency; target = home_currency; as_of = 6 };
      started = 0;
      answered = 0;
    }
    ∷ record {
      key = record { source = base_currency; target = home_currency; as_of = 6 };
      started = 5;
      answered = 7;
    }
    ∷ []

serve_rates-IsRecent_example : All (IsRecent growing) (serve_rates growing asked [])
serve_rates-IsRecent_example =
    Cached.serve_rates-IsRecent growing asked
      (omega arith, (omega arith, (omega arith, (omega arith, tt))))

serve_rates-fetch_rate_from_db_example :
    serve_rates (λ _. rates) asked []
    ≡ map (λ r. (r, fetch_rate_from_db rates r.key.source r.key.target r.key.as_of)) asked
serve_rates-fetch_rate_from_db_example =
    Cached.serve_rates-fetch_rate_from_db rates asked
      (omega arith, (omega arith, (omega arith, (omega arith, tt))))

signed_home_cents-fetch_rate_from_db_example :
    signed_home_cents rates (some (record cash { currency_code = base_currency })) 5 dinner
    ≡ convert (signed_cents dinner) (fetch_rate_from_db rates base_currency home_currency 5)
signed_home_cents-fetch_rate_from_db_example =
    Parity.signed_home_cents-fetch_rate_from_db rates
      (record cash { currency_code = base_currency }) 5 dinner
