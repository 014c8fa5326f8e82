-- ===== src/Rates/Latest.antt =====
-- The row that the carry-forward lookup of app/helpers/exchange_rate.py resolves.
use expense_world_engine.Base.{
  ℕ, ◌≡◌, ◌≤◌, ◌⊎◌, refl, sym, subst, inl, inr, Bool, true, false, Option, none, some, List, [],
  ◌∷◌, select, exists, All, ltb, Bool-cases, arith,
}
use expense_world_engine.Schema.{Text, ExchangeRate}
use expense_world_engine.Rates.{is_candidate, later_of, latest, carry_forward}

-- The row stands in the list.
abbrev pub IsIn : ExchangeRate → List ExchangeRate → Type 0
IsIn r [] = ⊥
IsIn r (x ∷ xs) = (x ≡ r) ⊎ IsIn r xs

-- The answer is the candidate with the greatest date, or there is no candidate.
abbrev pub IsLatest : List ExchangeRate → Text → ℕ → Option ExchangeRate → Type 0
IsLatest rates target as_of none = exists (is_candidate target as_of) rates ≡ false
IsLatest rates target as_of (some r) =
    IsIn r rates
    × ((is_candidate target as_of r ≡ true)
        × All (λ (x : ExchangeRate). is_candidate target as_of x ≡ true → x.rate_date ≤ r.rate_date)
            rates)

module _ (target : Text) (as_of : ℕ) where
  abbrev q : ExchangeRate → Bool
  q = is_candidate target as_of

  abbrev Below : ℕ → ExchangeRate → Type 0
  Below d x = q x ≡ true → x.rate_date ≤ d

  raise-All : (d e : ℕ) (rs : List ExchangeRate) → d ≤ e → All (Below d) rs → All (Below e) rs
  raise-All d e [] h a = tt
  raise-All d e (x ∷ rs) h a = (λ k. omega (arith, h, a.0 k), raise-All d e rs h a.1)

  none-Below : (d : ℕ) (rs : List ExchangeRate) → exists q rs ≡ false → All (Below d) rs
  unfolding exists
  none-Below d [] h = tt
  none-Below d (x ∷ rs) h =
      (λ k. absurd (ground (arith, h, k)), none-Below d rs (ground (arith, h)))

  -- One more row in front
  add_row :
      (x : ExchangeRate) (rs : List ExchangeRate) (o : Option ExchangeRate)
      → q x ≡ true
      → IsLatest rs target as_of o
      → IsLatest (x ∷ rs) target as_of (some (later_of x o))
  add_row x rs none k h = (inl refl, (k, (λ _. omega arith, none-Below x.rate_date rs h)))
  add_row x rs (some s) k h = elim (Bool-cases (ltb x.rate_date s.rate_date)) [
    | inl e ↦ answer (sym (older e)) (inr h.0, (h.1.0, (λ _. ground (arith, e), h.1.1)))
    | inr e ↦
        answer (sym (newer e))
          (inl refl, (k, (λ _. omega arith, raise-All _ _ rs (ground (arith, e)) h.1.1)))
  ]
    where
      older : ltb x.rate_date s.rate_date ≡ true → later_of x (some s) ≡ s
      older e = rw e refl

      newer : ltb x.rate_date s.rate_date ≡ false → later_of x (some s) ≡ x
      newer e = rw e refl

      answer :
          {y z : ExchangeRate}
          → y ≡ z
          → IsLatest (x ∷ rs) target as_of (some y)
          → IsLatest (x ∷ rs) target as_of (some z)
      answer e = subst (λ w. IsLatest (x ∷ rs) target as_of (some w)) e

  skip_row :
      (x : ExchangeRate) (rs : List ExchangeRate) (o : Option ExchangeRate)
      → q x ≡ false
      → IsLatest rs target as_of o
      → IsLatest (x ∷ rs) target as_of o
  unfolding exists
  skip_row x rs none k h = ground (arith, k, h)
  skip_row x rs (some s) k h = (inr h.0, (h.1.0, (λ e. absurd (ground (arith, k, e)), h.1.1)))

-- The lookup answers with the stored row for the pair whose date is the greatest on or before
-- `as_of`, whatever the order of the table, and with nothing only if no such row is stored.
pub carry_forward-IsLatest :
    (target : Text) (as_of : ℕ) (rates : List ExchangeRate)
    → IsLatest rates target as_of (carry_forward rates target as_of)
unfolding carry_forward select latest exists
carry_forward-IsLatest target as_of [] = refl
carry_forward-IsLatest target as_of (x ∷ rs) = elim (Bool-cases (is_candidate target as_of x)) [
  | inl k ↦ rw k (add_row target as_of x rs _ k (carry_forward-IsLatest target as_of rs))
  | inr k ↦ rw k (skip_row target as_of x rs _ k (carry_forward-IsLatest target as_of rs))
]
