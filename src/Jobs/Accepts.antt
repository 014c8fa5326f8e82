-- ===== src/Jobs/Accepts.antt =====
-- The rates that app/jobs/fetch_exchange_rates.py stores.
use expense_world_engine.Base.{
  ℕ, ◌*◌, ◌^◌, ◌≡◌, ◌≤◌, ◌<◌, ◌⊎◌, refl, sym, subst, inl, inr, Bool, false, Option, none, some,
  List, [], ◌∷◌, select, exists, Bool-cases, arith, zero, suc,
}
use expense_world_engine.Base.Int.{ℤ, pos, negsuc}
use expense_world_engine.Schema.{Text, Decimal, ExchangeRate}
use expense_world_engine.Rates.{base_currency}
use expense_world_engine.Rates.Latest.{IsIn}
use expense_world_engine.Jobs.{
  Quote, positive, is_baseline, baseline_rate, distance, is_implausible, is_rate_of, new_rate,
  insert_rate, check_move, check_sign, upsert_rate, apply_rate, apply_rates,
}

-- Within a tenth of the rate that a baseline has, if there is one
abbrev pub IsNear : Decimal → Option ExchangeRate → Type 0
IsNear rate none = Unit
IsNear rate (some b) =
    10 * distance (rate.coefficient * 10 ^ b.rate.places) (b.rate.coefficient * 10 ^ rate.places)
    ≤ b.rate.coefficient * 10 ^ rate.places

-- A row that a run on a date may add to a table: a rate of the base currency on that date, above
-- zero, for a target that has no rate on it yet, and near the latest rate of the week before.
pub record IsAcceptable (table : List ExchangeRate) (rate_date : ℕ) (r : ExchangeRate)
    : Type 0 where
  pub of_base : r.base_currency ≡ base_currency
  pub of_date : r.rate_date ≡ rate_date
  pub is_positive : 0 < r.rate.coefficient
  pub is_first : exists (is_rate_of r.target_currency rate_date) table ≡ false
  pub is_near : IsNear r.rate (baseline_rate table r.target_currency rate_date)

-- The table that a run leaves keeps every row and has acceptable ones beside them.
pub record Extends (rate_date : ℕ) (before after : List ExchangeRate) : Type 0 where
  pub kept : (r : ExchangeRate) → IsIn r before → IsIn r after
  pub added : (r : ExchangeRate) → IsIn r after → IsIn r before ⊎ IsAcceptable before rate_date r

module _ (rate_date : ℕ) (before : List ExchangeRate) where
  -- What a run has made of the table so far: it has the baselines of before.
  record Reached (table : List ExchangeRate) : Type 0 where
    extends : Extends rate_date before table
    same_baseline : (t : Text) → baseline_rate table t rate_date ≡ baseline_rate before t rate_date
    seen : (p : ExchangeRate → Bool) → exists p table ≡ false → exists p before ≡ false

  start : Reached before
  start = record {
    extends = record { kept = λ r i. i; added = λ r i. inl i };
    same_baseline = λ t. refl;
    seen = λ p h. h;
  }

  -- A row of the date itself is no baseline.
  own_date :
      (t target : Text) (rate : Decimal)
      → is_baseline target rate_date (new_rate t rate_date rate) ≡ false
  own_date t target rate = ground arith

  add-Reached :
      (table : List ExchangeRate) (t : Text) (rate : Decimal)
      → 0 < rate.coefficient
      → IsNear rate (baseline_rate table t rate_date)
      → exists (is_rate_of t rate_date) table ≡ false
      → Reached table
      → Reached (new_rate t rate_date rate ∷ table)
  unfolding baseline_rate select exists
  add-Reached table t rate positive near first h = record {
    extends = record {
      kept = λ r i. inr (h.extends.kept r i);
      added = λ r i. elim i [
        | inl e ↦ inr (subst (IsAcceptable before rate_date) e acceptable)
        | inr e ↦ h.extends.added r e
      ];
    };
    same_baseline = λ target. rw (own_date t target rate) (h.same_baseline target);
    seen = λ p k. h.seen p (ground (arith, k));
  }
    where
      acceptable : IsAcceptable before rate_date (new_rate t rate_date rate)
      acceptable = record {
        of_base = refl;
        of_date = refl;
        is_positive = positive;
        is_first = h.seen _ first;
        is_near = subst (IsNear rate) (h.same_baseline t) near;
      }

  insert-Reached :
      (table : List ExchangeRate) (t : Text) (rate : Decimal)
      → 0 < rate.coefficient
      → IsNear rate (baseline_rate table t rate_date)
      → Reached table
      → Reached (insert_rate table t rate_date rate).1
  unfolding insert_rate
  insert-Reached table t rate positive near h =
      elim (Bool-cases (exists (is_rate_of t rate_date) table)) [
        | inl e ↦ rw e h
        | inr e ↦ rw e (add-Reached table t rate positive near e h)
      ]

  move-Reached :
      (table : List ExchangeRate) (t : Text) (rate : Decimal) (o : Option ExchangeRate)
      → 0 < rate.coefficient
      → baseline_rate table t rate_date ≡ o
      → Reached table
      → Reached (check_move table t rate_date rate o).1
  unfolding check_move
  move-Reached table t rate none positive e h =
      insert-Reached table t rate positive (subst (IsNear rate) (sym e) tt) h
  move-Reached table t rate (some b) positive e h = elim (Bool-cases (is_implausible rate b.rate)) [
    | inl far ↦ rw far h
    | inr near ↦ rw near (
        insert-Reached table t rate positive (subst (IsNear rate) (sym e) (ground (arith, near))) h)
  ]

  sign-Reached :
      (table : List ExchangeRate) (t : Text) (places : ℕ) (c : ℤ)
      → Reached table
      → Reached (check_sign table t rate_date (positive places c)).1
  unfolding check_sign
  sign-Reached table t places (pos zero) h = h
  sign-Reached table t places (pos (suc n)) h = move-Reached table t _ _ (omega arith) refl h
  sign-Reached table t places (negsuc n) h = h

  apply-Reached :
      (table : List ExchangeRate) (t : Text) (o : Option Quote)
      → Reached table
      → Reached (apply_rate table t rate_date o).1
  unfolding apply_rate upsert_rate
  apply-Reached table t none h = h
  apply-Reached table t (some q) h = sign-Reached table t q.places q.coefficient h

  all-Reached :
      (targets : List Text) (rates : Text → Option Quote) (table : List ExchangeRate)
      → Reached table
      → Reached (apply_rates table targets rates rate_date).1
  unfolding apply_rates
  all-Reached [] rates table h = h
  all-Reached (t ∷ ts) rates table h = all-Reached ts rates _ (apply-Reached table t (rates t) h)

-- Whatever the provider answers, a run changes no stored rate, and every rate that it stores is
-- the first of its target for the date, above zero, and within a tenth of the latest rate that was
-- stored for the target in the seven days before, if there is one.
pub apply_rates-Extends :
    (table : List ExchangeRate) (targets : List Text) (rates : Text → Option Quote) (rate_date : ℕ)
    → Extends rate_date table (apply_rates table targets rates rate_date).1
apply_rates-Extends table targets rates rate_date =
    (all-Reached rate_date table targets rates table (start rate_date table)).extends
