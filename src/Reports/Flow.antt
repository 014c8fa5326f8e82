-- ===== src/Reports/Flow.antt =====
-- The figures of a month (app/helpers/monthly_report.py) beside sums over its rows.
use expense_world_engine.Base.{
  ℕ, ◌≡◌, refl, ap, ◌∙◌, some, List, [], ◌∷◌, map, select, ◌==◌, or_else, arith, Bool-cases, inl,
  inr,
}
use expense_world_engine.Base.Int.{ℤ, pos, pos_part, neg_part, ◌-ℤ◌, int_laws}
use expense_world_engine.Base.Sums.{sum_by}
use expense_world_engine.Schema.{Category}
use expense_world_engine.Reports.{
  MonthRow, Group, value_or_zero, unconvertible, count_by, breakdown, BreakdownRow, breakdown_row,
  breakdown_rows, category_flow, null_if, inflow_part, outflow_part, totals,
}
use expense_world_engine.Reports.Groups.{
  in_category, group_of, breakdown-spent, breakdown-unconverted,
}

abbrev reported : BreakdownRow → ℤ
reported r = or_else r.spent_home_cents (pos 0)

count-map :
    (gs : List Group)
    → count_by (λ (r : BreakdownRow). r.unconverted_count) (map breakdown_row gs)
      ≡ count_by (λ (g : Group). g.unconverted) gs
unfolding count_by
count-map [] = refl
count-map (g ∷ gs) = rw (count-map gs) refl

-- Where no group has a row without a value, no figure is null.
sum-reported :
    (gs : List Group)
    → count_by (λ (g : Group). g.unconverted) gs ≡ 0
    → sum_by reported (map breakdown_row gs) ≡ sum_by (λ (g : Group). g.spent) gs
unfolding count_by sum_by
sum-reported [] h = refl
sum-reported (g ∷ gs) h = rw (first, sum-reported gs rest) refl
  where
    first : g.unconverted ≡ 0
    first = omega (arith, h)

    rest : count_by (λ (x : Group). x.unconverted) gs ≡ 0
    rest = omega (arith, h)

null_if-cong : (n : ℕ) (v w : ℤ) → (n ≡ 0 → v ≡ w) → null_if n v ≡ null_if n w
null_if-cong n v w h = elim (Bool-cases (n == 0)) [
  | inl e ↦ rw e (ap some (h (ground (arith, e))))
  | inr e ↦ rw e refl
]

-- The figure of a category is the sum over its rows of the month, and is null exactly if one of
-- them has no value; its count is that of the rows without a value.
pub category_flow-rows :
    (rows : List MonthRow) (c : Category)
    → ((category_flow (breakdown rows) c).spent_home_cents
        ≡ null_if
            (count_by unconvertible (select (in_category c.id) rows))
            (sum_by value_or_zero (select (in_category c.id) rows)))
      × ((category_flow (breakdown rows) c).unconverted_count
          ≡ count_by unconvertible (select (in_category c.id) rows))
unfolding category_flow breakdown_rows
category_flow-rows rows c = (
  rw counted (
      null_if-cong _ _ _
        λ e. sum-reported gs (breakdown-unconverted c.id rows ∙ e) ∙ breakdown-spent c.id rows),
  counted,
)
  where
    gs : List Group
    gs = select (group_of c.id) (breakdown rows)

    counted :
        count_by (λ (r : BreakdownRow). r.unconverted_count) (map breakdown_row gs)
        ≡ count_by unconvertible (select (in_category c.id) rows)
    counted = count-map gs ∙ breakdown-unconverted c.id rows

net_of_parts :
    (rows : List MonthRow)
    → sum_by inflow_part rows -ℤ sum_by outflow_part rows ≡ sum_by value_or_zero rows
unfolding sum_by
net_of_parts [] = omega int_laws
net_of_parts (r ∷ rs) =
    let p = ap pos_part (net_of_parts rs) in let n = ap neg_part (net_of_parts rs) in omega int_laws

-- The net of a month is the signed sum over its rows, in and out as the rows carry their signs, and
-- is null exactly if one of them has no value.
pub totals-rows :
    (rows : List MonthRow)
    → (totals rows).net_home_cents
      ≡ null_if (count_by unconvertible rows) (sum_by value_or_zero rows)
unfolding totals
totals-rows rows = ap (null_if (count_by unconvertible rows)) (net_of_parts rows)
