-- ===== src/Rates/Digits.antt =====
-- The count of decimal digits of Rates/Decimals: its fuel is enough.
use expense_world_engine.Base.{
  ℕ, zero, suc, ◌*◌, ◌/◌, ◌^◌, ◌≤◌, ◌<◌, ◌≡◌, refl, Bool, true, false, ltb, arith,
}
use native.Mathlib.Nat.{mod-lt}
use native.Mathlib.Omega.{div_any}
use expense_world_engine.Rates.Decimals.{digits}

abbrev Counts : ℕ → ℕ → Type 0
Counts n d = (n < 10 ^ d) × (0 < n → 10 ^ d ≤ 10 * n)

one_digit : (n : ℕ) → n < 10 → Counts n 1
one_digit n h = (omega (arith, h), λ p. omega (arith, p))

one_more : (n d : ℕ) → 10 ≤ n → Counts (n / 10) d → Counts n (suc d)
one_more n d h c =
    let whole = div_any n 10 in
    let rest = mod-lt n {m = 10} (omega arith) in
    let below = c.0 in
    let above = c.1 (omega (arith, h, whole, rest)) in
    (omega (arith, below, whole, rest), λ p. omega (arith, above, whole, rest))

shrinks : (n fuel : ℕ) → 10 ≤ n → n ≤ suc fuel → n / 10 ≤ fuel
shrinks n fuel h k =
    let whole = div_any n 10 in
    let rest = mod-lt n {m = 10} (omega arith) in omega (arith, h, k, whole, rest)

-- With the number itself as fuel the count d stops at the leading digit: n < 10 ^ d, and
-- 10 ^ d ≤ 10 * n but for zero, which has one digit.
pub digits-enough :
    (fuel n : ℕ) → n ≤ fuel → (n < 10 ^ digits fuel n) × (0 < n → 10 ^ digits fuel n ≤ 10 * n)
unfolding digits
digits-enough zero n h = (omega (arith, h), λ p. absurd (omega (arith, h, p)))
digits-enough (suc fuel) n h =
    by_size (ltb n 10) refl (λ large. digits-enough fuel (n / 10) (shrinks n fuel large h))
  where
    by_size :
        (b : Bool)
        → ltb n 10 ≡ b
        → (10 ≤ n → Counts (n / 10) (digits fuel (n / 10)))
        → Counts n (elim b [ true ↦ 1 | false ↦ suc (digits fuel (n / 10)) ])
    by_size true e rec = one_digit n (ground (arith, e))
    by_size false e rec =
        one_more n (digits fuel (n / 10)) (ground (arith, e)) (rec (ground (arith, e)))
