-- ===== src/Jobs/Backfill/Grows.antt =====
-- What app/jobs/backfill_exchange_rates.py stores.
use expense_world_engine.Base.{
  true, exists, ℕ, zero, suc, ◌+◌, ◌-◌, ◌≡◌, ◌≤◌, ◌<◌, ◌⊎◌, inl, inr, subst, sym, false, not, List,
  [], ◌∷◌, select, All, ltb, Bool-cases, arith,
}
use expense_world_engine.Schema.{Text, ExchangeRate}
use expense_world_engine.Rates.{base_currency}
use expense_world_engine.Rates.Latest.{IsIn}
use expense_world_engine.Jobs.Backfill.Done.{HasNoRepeat, lacks_rate, is_done-lacks_rate}
use expense_world_engine.Jobs.Accepts.{apply_rates-Extends}
use expense_world_engine.Jobs.Backfill.{
  is_done, days_from, FetchTry, Fetched, gap, fault, payload, fetch_one_date, store_day, store_days,
  days_to_fetch, backfill, is_nil, provider_floor,
}

-- A day of the range on which some target has no rate
abbrev pub IsAsked : List ExchangeRate → List Text → ℕ → ℕ → ℕ → Type 0
IsAsked table targets start end day =
    (start ≤ day) × ((day ≤ end) × (exists (lacks_rate table day) targets ≡ true))

-- The rows of before, and rates above zero on asked days
pub record Grows (P : ℕ → Type 0) (before after : List ExchangeRate) : Type 0 where
  pub kept : (r : ExchangeRate) → IsIn r before → IsIn r after
  pub added :
      (r : ExchangeRate)
      → IsIn r after
      → IsIn r before
        ⊎ ((r.base_currency ≡ base_currency) × (P r.rate_date × (0 < r.rate.coefficient)))

Grows-refl : (P : ℕ → Type 0) (table : List ExchangeRate) → Grows P table table
Grows-refl P table = record { kept = λ r i. i; added = λ r i. inl i }

module _ (P : ℕ → Type 0) (before : List ExchangeRate) (targets : List Text) where
  store_day-Grows :
      (table : List ExchangeRate) (day : ℕ) (f : Fetched)
      → P day
      → Grows P before table
      → Grows P before (store_day table targets day f).1
  unfolding store_day
  store_day-Grows table day gap p g = g
  store_day-Grows table day fault p g = g
  store_day-Grows table day (payload rates) p g =
      let e = apply_rates-Extends table targets rates day in
      record {
        kept = λ r i. e.kept r (g.kept r i);
        added = λ r i. elim (e.added r i) [
          | inl old ↦ g.added r old
          | inr new ↦ inr (new.of_base, (subst P (sym new.of_date) p, new.is_positive))
        ];
      }

  store_days-Grows :
      (fetch : ℕ → ℕ → FetchTry) (days : List ℕ) (table : List ExchangeRate)
      → All P days
      → Grows P before table
      → Grows P before (store_days fetch targets days table).1
  unfolding store_days
  store_days-Grows fetch [] table a g = g
  store_days-Grows fetch (day ∷ days) table a g =
      store_days-Grows fetch days _ a.1
        (store_day-Grows table day (fetch_one_date (fetch day)) a.0 g)

select_days :
    (table : List ExchangeRate) (targets : List Text) (start end : ℕ) (days : List ℕ)
    → HasNoRepeat targets
    → All (λ day. (start ≤ day) × (day ≤ end)) days
    → All (IsAsked table targets start end) (select (λ day. not (is_done table targets day)) days)
unfolding select
select_days table targets start end [] once a = tt
select_days table targets start end (day ∷ days) once a =
    elim (Bool-cases (is_done table targets day)) [
      | inl e ↦ rw e (select_days table targets start end days once a.1)
      | inr e ↦ rw e (
        (a.0.0, (a.0.1, is_done-lacks_rate table targets day once e)),
        select_days table targets start end days once a.1,
      )
    ]

days_from-All :
    (low high first n : ℕ)
    → low ≤ first
    → first + n ≤ suc high
    → All (λ day. (low ≤ day) × (day ≤ high)) (days_from first n)
unfolding days_from
days_from-All low high first zero l h = tt
days_from-All low high first (suc n) l h = (
  (l, omega (arith, h)),
  days_from-All low high (suc first) n (omega (arith, l)) (omega (arith, h)),
)

days_to_fetch-IsAsked :
    (table : List ExchangeRate) (targets : List Text) (start end : ℕ)
    → HasNoRepeat targets
    → start ≤ end
    → All (IsAsked table targets start end) (days_to_fetch table targets start end)
unfolding days_to_fetch
days_to_fetch-IsAsked table targets start end once h =
    select_days table targets start end (days_from start (suc (end - start))) once
      (days_from-All start end start (suc (end - start)) (omega arith) (omega (arith, h)))

-- A backfill changes no stored rate, and every rate that it stores is above zero and on a day of
-- the range on which some target had no rate, in whatever order the fetches complete, if the
-- targets are named once each.
pub backfill-Grows :
    (fetch : ℕ → ℕ → FetchTry) (order : List ℕ → List ℕ)
    → ((P : ℕ → Type 0) (days : List ℕ) → All P days → All P (order days))
    → (start end : ℕ) (targets : List Text) (table : List ExchangeRate) → HasNoRepeat targets
    → Grows (IsAsked table targets start end) table (backfill fetch order start end targets table).1
unfolding backfill
backfill-Grows fetch order rearranges start end targets table once =
    elim (Bool-cases (ltb start provider_floor)) [
      | inl early ↦ rw early (Grows-refl asked table)
      | inr ok ↦ elim (Bool-cases (ltb end start)) [
        | inl backwards ↦ rw (ok, backwards) (Grows-refl asked table)
        | inr forwards ↦
            rw (ok, forwards)
              (elim (Bool-cases (is_nil targets)) [
                | inl none_asked ↦ rw none_asked (Grows-refl asked table)
                | inr some_asked ↦ rw some_asked (stored forwards)
              ])
      ]
    ]
  where
    asked : ℕ → Type 0
    asked = IsAsked table targets start end

    stored :
        ltb end start ≡ false
        → Grows asked table
            (store_days fetch targets (order (days_to_fetch table targets start end)) table).1
    stored forwards =
        store_days-Grows asked table targets fetch _ table
          (rearranges asked _
            (days_to_fetch-IsAsked table targets start end once (ground (arith, forwards))))
          (Grows-refl asked table)
