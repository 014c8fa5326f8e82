-- ===== src/Tests/Jobs.antt =====
-- The rate job on the small rate table.
use expense_world_engine.Base.{
  exists, ℕ, zero, suc, ◌≡◌, refl, ◌+◌, ◌<◌, Option, some, [], ◌∷◌, select, arith,
}
use expense_world_engine.Base.Int.{pos}
use expense_world_engine.Schema.{Text}
use expense_world_engine.Text.{same_text}
use expense_world_engine.Rates.{latest}
use expense_world_engine.HomeBalance.{home_currency}
use expense_world_engine.Jobs.{
  Quote, implausible, no_tally, baseline_rate, check_sign, check_move, upsert_rate, apply_rate,
  apply_rates, Attempt, connected, transient, pool_at, create_pool,
}
use expense_world_engine.Jobs.Accepts.{Extends}
use expense_world_engine.Jobs.Accepts
use expense_world_engine.Jobs.Wait
use expense_world_engine.Jobs.Backfill.{FetchTry, answered, backfill}
use expense_world_engine.Jobs.Backfill.Grows
use expense_world_engine.Tests.Rates.{rates}

-- A misplaced decimal point: 37.0 after 3.755
abbrev wrong : Text → Option Quote
wrong t = some (record { coefficient = pos 370; places = 1 })

misplaced_test :
    apply_rates rates (home_currency ∷ []) wrong 7
    ≡ (record no_tally { failed = (home_currency, implausible) ∷ [] }, rates)
unfolding apply_rates apply_rate upsert_rate check_sign check_move baseline_rate latest select
    same_text
misplaced_test = refl

-- 3.80 after 3.755
abbrev right : Text → Option Quote
right t = some (record { coefficient = pos 38; places = 1 })

apply_rates-Extends_example : Extends 7 rates (apply_rates rates (home_currency ∷ []) right 7).1
apply_rates-Extends_example = Accepts.apply_rates-Extends rates (home_currency ∷ []) right 7

-- The database is up at the second try.
abbrev slow : ℕ → Attempt
slow zero = transient
slow (suc zero) = transient
slow (suc (suc n)) = connected

create_pool-pool_at_example : create_pool slow ≡ pool_at 2
create_pool-pool_at_example = Wait.create_pool-pool_at slow 1 (omega arith) refl down
  where
    down : (i : ℕ) → i < 1 → slow (1 + i) ≡ transient
    down zero h = refl
    down (suc i) h = absurd (omega (arith, h))

-- Every day is answered at once with 3.80.
abbrev provider : ℕ → ℕ → FetchTry
provider day try = answered right

backfill-Grows_example :
    Grows.Grows
      (Grows.IsAsked rates (home_currency ∷ []) 739000 739002)
      rates
      (backfill provider (λ days. days) 739000 739002 (home_currency ∷ []) rates).1
unfolding exists
backfill-Grows_example =
    Grows.backfill-Grows provider (λ days. days) (λ P days a. a) 739000 739002 (home_currency ∷ [])
      rates (refl, tt)
