-- ===== src/Rates/Decimals.antt =====
-- The decimal arithmetic of app/helpers/exchange_rate.py and account_balance.py: Python's `decimal`
-- in its default context (28 digits, ties to even), where no magnitude leaves those digits.
use expense_world_engine.Base.{
  ℕ, zero, suc, ◌+◌, ◌-◌, ◌*◌, ◌/◌, ◌%◌, ◌^◌, true, false, ltb, leb, ◌==◌, if◌then◌else◌,
}
use expense_world_engine.Base.Int.{ℤ, pos, negsuc, neg_ℕ}
use expense_world_engine.Schema.{Decimal}

-- n / d to the nearest integer, a tie to the even one
unfoldable pub round_half_even : ℕ → ℕ → ℕ
round_half_even n d =
    let q = n / d in
    let r = n % d in
    if ltb (2 * r) d then q else if ltb d (2 * r) then suc q else if q % 2 == 0 then q else suc q

-- The number of decimal digits; `fuel` bounds the divisions by ten.
unfoldable pub digits : ℕ → ℕ → ℕ
digits zero n = 1
digits (suc fuel) n = elim (ltb n 10) [ true ↦ 1 | false ↦ suc (digits fuel (n / 10)) ]

-- Decimal(1) / rate: 28 significant digits
unfoldable pub reciprocal : Decimal → Decimal
reciprocal r =
    let shift = digits r.coefficient r.coefficient + 27 in
    let quotient = round_half_even (10 ^ shift) r.coefficient in
    record { coefficient = quotient * 10 ^ (r.places - shift); places = shift - r.places }

-- `.quantize(Decimal("0.00000001"))`
unfoldable pub quantize_8 : Decimal → Decimal
quantize_8 d = record {
  coefficient =
      if leb d.places 8
      then d.coefficient * 10 ^ (8 - d.places)
      else round_half_even d.coefficient (10 ^ (d.places - 8));
  places = 8;
}

unfoldable pub inverse : Decimal → Decimal
inverse r = quantize_8 (reciprocal r)

-- n / d to the nearest integer, a tie away from zero: ROUND_HALF_UP
unfoldable pub round_half_up : ℕ → ℕ → ℕ
round_half_up n d = (2 * n + d) / (2 * d)

-- `_to_home_cents`
unfoldable pub to_home_cents : ℤ → Decimal → ℤ
to_home_cents (pos n) rate = pos (round_half_up (n * rate.coefficient) (10 ^ rate.places))
to_home_cents (negsuc n) rate = neg_ℕ (round_half_up (suc n * rate.coefficient) (10 ^ rate.places))
