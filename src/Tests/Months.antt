-- ===== src/Tests/Months.antt =====
-- The figures of a month on a few rows.
use expense_world_engine.Base.{◌≡◌, refl, true, none, some, List, [], ◌∷◌, select, exists, find}
use expense_world_engine.Base.Int.{pos, negsuc}
use expense_world_engine.Base.Sums.{sum_by}
use expense_world_engine.HomeBalance.{Zones}
use expense_world_engine.HomeCurrency.{signed_home_cents, home_cents}
use expense_world_engine.Text.{same_text}
use expense_world_engine.Reports.{
  MonthRow, value_or_zero, unconvertible, count_by, breakdown, category_flow, null_if, totals,
  month_rows, compute_month_flow,
}
use expense_world_engine.Reports.Groups.{in_category}
use expense_world_engine.Reports.Flow
use expense_world_engine.Reports.Sums
use expense_world_engine.Tests.Data.{books, food}

-- Two rows of one category and one of another, which has no value.
abbrev rows : List MonthRow
rows =
    record { category_id = 20; hashtag_ids = 30 ∷ []; value = some (pos 500) }
    ∷ record { category_id = 20; hashtag_ids = []; value = some (negsuc 299) }
    ∷ record { category_id = 21; hashtag_ids = []; value = none }
    ∷ []

category_flow-rows_example :
    ((category_flow (breakdown rows) food).spent_home_cents
      ≡ null_if
          (count_by unconvertible (select (in_category 20) rows))
          (sum_by value_or_zero (select (in_category 20) rows)))
    × ((category_flow (breakdown rows) food).unconverted_count
        ≡ count_by unconvertible (select (in_category 20) rows))
category_flow-rows_example = Flow.category_flow-rows rows food

abbrev zones : Zones
zones = record { is_zone = λ _. true; local_date = λ _ t. t }

compute_month_flow-net_example :
    (compute_month_flow (λ _ _. true) zones 1 0 30 [] books).month_totals.net_home_cents
    ≡ some (sum_by Sums.figure (compute_month_flow (λ _ _. true) zones 1 0 30 [] books).categories)
unfolding compute_month_flow totals month_rows select count_by exists find signed_home_cents
    home_cents same_text
compute_month_flow-net_example =
    Sums.compute_month_flow-net (λ _ _. true) zones 1 0 30 [] books refl (refl, tt)
      (refl, (refl, tt))
