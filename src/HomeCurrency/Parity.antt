-- ===== src/HomeCurrency/Parity.antt =====
-- The SQL conversion of app/helpers/home_currency.py beside the Python conversion of
-- app/helpers/account_balance.py and exchange_rate.py.
use expense_world_engine.Base.{
  ℕ, zero, suc, ◌*◌, ◌/◌, ◌%◌, ◌^◌, ◌≤◌, ◌<◌, ◌≡◌, refl, sym, ap, ◌∙◌, Option, none, some, List,
  leb, arith, Bool-cases, inl, inr, select,
}
use native.Mathlib.Nat.{mod-lt}
use native.Mathlib.Omega.{div_any}
use expense_world_engine.Base.Int.{pos, negsuc, neg_ℕ}
use expense_world_engine.Schema.{
  Decimal, ExchangeRate, Account, Transaction, TransactionType, inflow, outflow,
}
use expense_world_engine.Text.{same_text}
use expense_world_engine.Rates.{
  base_currency, carry_forward, fetch_rate_from_db, latest, one, as_is,
}
use expense_world_engine.Rates.Decimals.{round_half_up, to_home_cents}
use expense_world_engine.Rates.Rounding.{IsNearest, round_half_up-eq, pow_pos}
use expense_world_engine.HomeBalance.{home_currency, convert}
use expense_world_engine.Ledger.Balance.{signed, signed_cents}
use expense_world_engine.HomeCurrency.{
  sql_round, home_rate, converted, home_cents, apply_sign, signed_home_cents, is_home_rate,
}

sql_round-IsNearest : (n d : ℕ) → 0 < d → IsNearest n d (sql_round n d)
unfolding sql_round
sql_round-IsNearest n d h = elim (Bool-cases (leb d (2 * (n % d)))) [
  | inl up ↦ rw up (rounded_up (ground (arith, up)))
  | inr down ↦ rw down (rounded_down (ground (arith, down)))
]
  where
    rounded_up : d ≤ 2 * (n % d) → IsNearest n d (suc (n / d))
    rounded_up k =
        let whole = div_any n d in
        let rest = mod-lt n {m = d} h in
        record { from_below = omega (arith, whole, k); from_above = omega (arith, whole, rest) }

    rounded_down : 2 * (n % d) < d → IsNearest n d (n / d)
    rounded_down k =
        let whole = div_any n d in
        record { from_below = omega (arith, whole); from_above = omega (arith, whole, k) }

-- The two roundings are one.
round_half_up-sql_round : (n d : ℕ) → 0 < d → round_half_up n d ≡ sql_round n d
round_half_up-sql_round n d h = round_half_up-eq n d _ h (sql_round-IsNearest n d h)

sql_round-one : (n : ℕ) → sql_round (n * 1) 1 ≡ n
sql_round-one n =
    sym (round_half_up-sql_round (n * 1) 1 (omega arith))
    ∙ round_half_up-eq (n * 1) 1 n (omega arith)
        (record { from_below = omega arith; from_above = omega arith })

round-zero : (r : Decimal) → round_half_up (0 * r.coefficient) (10 ^ r.places) ≡ 0
round-zero r =
    round_half_up-eq (0 * r.coefficient) (10 ^ r.places) 0 (pow_pos r.places)
      (record { from_below = omega arith; from_above = omega (arith, pow_pos r.places) })

neg_suc : (n : ℕ) → neg_ℕ (suc n) ≡ negsuc n
neg_suc n = ground arith

-- Rounding the magnitude and then signing it is rounding the signed amount.
signed_round :
    (ty : TransactionType) (n : ℕ) (r : Decimal)
    → signed ty (sql_round (n * r.coefficient) (10 ^ r.places)) ≡ to_home_cents (signed ty n) r
unfolding to_home_cents
signed_round inflow n r = ap pos (sym (round_half_up-sql_round _ _ (pow_pos r.places)))
signed_round outflow zero r =
    ap neg_ℕ (sym (round_half_up-sql_round _ _ (pow_pos r.places)))
    ∙ (ap neg_ℕ (round-zero r) ∙ sym (ap pos (round-zero r)))
signed_round outflow (suc n) r =
    ap neg_ℕ (sym (round_half_up-sql_round _ _ (pow_pos r.places)))
    ∙ ap (λ v. to_home_cents v r) (sym (neg_suc n))

signed-one : (ty : TransactionType) (n : ℕ) → to_home_cents (signed ty n) one ≡ signed ty n
signed-one ty n = sym (signed_round ty n one) ∙ ap (signed ty) (sql_round-one n)

module _ (rates : List ExchangeRate) (a : Account) (day : ℕ) (t : Transaction) where
  -- The converted row, by the rate that the lookup found
  by_rate :
      (o : Option ExchangeRate)
      → apply_sign t (converted t.amount_cents (elim o [ none ↦ none | some r ↦ some r.rate ]))
        ≡ convert (signed_cents t) (as_is o)
  by_rate none = refl
  by_rate (some r) = ap some (signed_round t.transaction_type t.amount_cents r.rate)

  -- What the SQL fragments make of a ledger row is what Python makes of its signed amount at the
  -- rate of the same day, for an account in any currency: both are absent together, and both round
  -- alike.
  pub signed_home_cents-fetch_rate_from_db :
      signed_home_cents rates (some a) day t
      ≡ convert (signed_cents t) (fetch_rate_from_db rates a.currency_code home_currency day)
  unfolding signed_home_cents home_cents home_rate fetch_rate_from_db carry_forward same_text
  signed_home_cents-fetch_rate_from_db =
      elim (Bool-cases (same_text a.currency_code home_currency)) [
        | inl home ↦ rw home (ap some (sym (signed-one t.transaction_type t.amount_cents)))
        | inr foreign ↦ elim (Bool-cases (same_text a.currency_code base_currency)) [
          | inl base ↦ rw foreign (rw base (by_rate (latest (select (is_home_rate day) rates))))
          | inr other ↦ rw foreign (rw other refl)
        ]
      ]
