-- ===== src/Rates/Rounding.antt =====
-- ROUND_HALF_UP of `_to_home_cents` (app/helpers/account_balance.py), by what characterises it.
use expense_world_engine.Base.{ℕ, ◌+◌, ◌*◌, ◌^◌, ◌≤◌, ◌<◌, ◌≡◌, arith}
use native.Mathlib.Nat.{div-eq_of_lt-le, one-le-pow}
use expense_world_engine.Rates.Decimals.{round_half_up}

-- The quotient q of n by d is nearest, a tie going up: q - 1/2 ≤ n / d < q + 1/2.
pub record IsNearest (n d q : ℕ) : Type 0 where
  pub from_below : 2 * d * q ≤ 2 * n + d
  pub from_above : 2 * n < 2 * d * q + d

pub pow_pos : (p : ℕ) → 0 < 10 ^ p
pow_pos p = omega (arith, one-le-pow p 10 (omega arith))

-- There is one such quotient.
pub round_half_up-eq : (n d q : ℕ) → 0 < d → IsNearest n d q → round_half_up n d ≡ q
unfolding round_half_up
round_half_up-eq n d q h k =
    div-eq_of_lt-le (2 * d) (omega (arith, k.from_below)) (omega (arith, k.from_above))
