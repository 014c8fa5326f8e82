-- ===== src/Reports/Groups.antt =====
-- GROUP BY category_id, hashtag_ids of app/helpers/monthly_report.py: the groups of a category carry
-- the sum and the count of its rows.
use expense_world_engine.Base.{
  ℕ, ◌+◌, ◌≡◌, refl, sym, ap, ◌∙◌, Bool, true, List, [], ◌∷◌, select, ◌==◌, arith, Bool-cases, inl,
  inr, if◌then◌else◌,
}
use expense_world_engine.Base.Int.{ℤ, pos, ◌+ℤ◌, zero-+ℤ, +ℤ_assoc, +ℤ_swap}
use expense_world_engine.Base.Sums.{sum_by, part, sum_by-select}
use expense_world_engine.Reports.{
  MonthRow, Group, value_or_zero, unconvertible, count_by, same_group, comes_before, new_group,
  joined, add_to_groups, breakdown,
}

abbrev pub in_category : ℕ → MonthRow → Bool
in_category c r = r.category_id == c

abbrev pub group_of : ℕ → Group → Bool
group_of c g = g.category_id == c

-- What one row counts for in a category
abbrev count_part : {A : Type 0} → (A → Bool) → (A → ℕ) → A → ℕ
count_part p g x = if p x then g x else 0

count_by-select :
    {A : Type 0} (p : A → Bool) (g : A → ℕ) (xs : List A)
    → count_by g (select p xs) ≡ count_by (count_part p g) xs
unfolding count_by select
count_by-select p g [] = refl
count_by-select p g (x ∷ xs) = elim (Bool-cases (p x)) [
  | inl e ↦ rw e (rw (count_by-select p g xs) refl)
  | inr e ↦ rw e (omega (arith, count_by-select p g xs))
]

module _ (c : ℕ) where
  spent_part : Group → ℤ
  spent_part = part (group_of c) (λ (g : Group). g.spent)

  value_part : MonthRow → ℤ
  value_part = part (in_category c) value_or_zero

  joined_part :
      (r : MonthRow) (g : Group)
      → same_group r g ≡ true
      → spent_part (joined r g) ≡ value_part r +ℤ spent_part g
  unfolding spent_part value_part
  joined_part r g h = elim (Bool-cases (r.category_id == c)) [
    | inl e ↦ rw (same_category h, e) refl
    | inr e ↦ rw (same_category h, e) (sym (zero-+ℤ (pos 0)))
  ]
    where
      same_category : same_group r g ≡ true → g.category_id ≡ r.category_id
      same_category k = ground (arith, k)

  add_to_groups-spent :
      (r : MonthRow) (gs : List Group)
      → sum_by spent_part (add_to_groups r gs) ≡ value_part r +ℤ sum_by spent_part gs
  unfolding add_to_groups sum_by spent_part value_part
  add_to_groups-spent r [] = refl
  add_to_groups-spent r (g ∷ gs) = elim (Bool-cases (same_group r g)) [
    | inl e ↦ rw e (
        ap (λ n. n +ℤ sum_by spent_part gs) (joined_part r g e)
        ∙ +ℤ_assoc (value_part r) (spent_part g) (sum_by spent_part gs))
    | inr e ↦ elim (Bool-cases (comes_before r g)) [
      | inl b ↦ rw e (rw b refl)
      | inr b ↦ rw e (
          rw b (
            ap (λ n. spent_part g +ℤ n) (add_to_groups-spent r gs)
            ∙ +ℤ_swap (value_part r) (spent_part g) (sum_by spent_part gs)))
    ]
  ]

  breakdown-parts : (rs : List MonthRow) → sum_by spent_part (breakdown rs) ≡ sum_by value_part rs
  unfolding breakdown sum_by spent_part value_part
  breakdown-parts [] = refl
  breakdown-parts (r ∷ rs) =
      add_to_groups-spent r (breakdown rs) ∙ ap (λ n. value_part r +ℤ n) (breakdown-parts rs)

  -- The groups of a category sum to its rows.
  pub breakdown-spent :
      (rs : List MonthRow)
      → sum_by (λ (g : Group). g.spent) (select (group_of c) (breakdown rs))
        ≡ sum_by value_or_zero (select (in_category c) rs)
  unfolding spent_part value_part
  breakdown-spent rs =
      sum_by-select (group_of c) (λ (g : Group). g.spent) (breakdown rs)
      ∙ (breakdown-parts rs ∙ sym (sum_by-select (in_category c) value_or_zero rs))

  count_group : Group → ℕ
  count_group = count_part (group_of c) (λ (g : Group). g.unconverted)

  count_row : MonthRow → ℕ
  count_row = count_part (in_category c) unconvertible

  joined_count :
      (r : MonthRow) (g : Group)
      → same_group r g ≡ true
      → count_group (joined r g) ≡ count_row r + count_group g
  unfolding count_group count_row
  joined_count r g h = ground (arith, h)

  new_count : (r : MonthRow) → count_group (new_group r) ≡ count_row r
  unfolding count_group count_row
  new_count r = refl

  add_to_groups-count :
      (r : MonthRow) (gs : List Group)
      → count_by count_group (add_to_groups r gs) ≡ count_row r + count_by count_group gs
  unfolding add_to_groups count_by
  add_to_groups-count r [] = omega (arith, new_count r)
  add_to_groups-count r (g ∷ gs) = elim (Bool-cases (same_group r g)) [
    | inl e ↦ rw e (omega (arith, joined_count r g e))
    | inr e ↦ elim (Bool-cases (comes_before r g)) [
      | inl b ↦ rw e (rw b (omega (arith, new_count r)))
      | inr b ↦ rw e (rw b (omega (arith, add_to_groups-count r gs)))
    ]
  ]

  breakdown-counts :
      (rs : List MonthRow) → count_by count_group (breakdown rs) ≡ count_by count_row rs
  unfolding breakdown count_by
  breakdown-counts [] = refl
  breakdown-counts (r ∷ rs) =
      omega (arith, add_to_groups-count r (breakdown rs), breakdown-counts rs)

  -- They count its rows without a value.
  pub breakdown-unconverted :
      (rs : List MonthRow)
      → count_by (λ (g : Group). g.unconverted) (select (group_of c) (breakdown rs))
        ≡ count_by unconvertible (select (in_category c) rs)
  unfolding count_group count_row
  breakdown-unconverted rs =
      count_by-select (group_of c) (λ (g : Group). g.unconverted) (breakdown rs)
      ∙ (breakdown-counts rs ∙ sym (count_by-select (in_category c) unconvertible rs))
