-- ===== src/HomeBalance/Reads.antt =====
-- The conversion of app/helpers/account_balance.py as what the accounts need of it.
use expense_world_engine.Base.{ℕ, ◌≡◌, refl, Option, List}
use expense_world_engine.Base.Int.{ℤ}
use expense_world_engine.Schema.{Text, Db}
use expense_world_engine.Exec.{Exec, pure, ◌>>=◌}
use expense_world_engine.Exec.Keeps.{Keeps, Keeps-bind, Keeps-pure, keeps_rules}
use expense_world_engine.Rates.{CacheEntry}
use expense_world_engine.HomeBalance.{
  Process, HomeBalance, get_user_report_settings, fetch_home_balance,
}

abbrev pub home_value : Process → List CacheEntry → ℕ → Text → ℤ → Exec (Option ℤ)
home_value p cache u currency cents = do
  found ← fetch_home_balance p cache u currency cents
  pure found.0

pub fetch_home_balance-Keeps :
    {P : Db → Type 0} (p : Process) (cache : List CacheEntry) (u : ℕ) (currency : Text) (cents : ℤ)
    → Keeps P (fetch_home_balance p cache u currency cents)
unfolding fetch_home_balance get_user_report_settings
fetch_home_balance-Keeps p cache u currency cents = search keeps_rules depth 12

-- The service's own conversion, whatever its clocks, zones and cache
abbrev pub process_balance : Process → List CacheEntry → HomeBalance
process_balance p cache = record {
  home_balance = home_value p cache;
  reads = λ u currency cents db.
      (Keeps-bind {P = λ d. d ≡ db} _ _ (fetch_home_balance-Keeps p cache u currency cents)
          (λ found. Keeps-pure found.0)).at
        db refl;
}
