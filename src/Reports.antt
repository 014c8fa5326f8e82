-- ===== src/Reports.antt =====
-- app/helpers/monthly_report.py: the bounds of a month, and its flow by category and in total.
mod Rows
pub mod Groups
pub mod Flow
pub mod Sums
unfoldable pub use Rows.*
use expense_world_engine.Base.{
  ℕ, suc, ◌+◌, Bool, true, false, not, ◌&&◌, ◌||◌, Option, none, some, List, [], ◌∷◌, map, select,
  find, exists, ltb, leb, ◌==◌, is_none, or_else, if◌then◌else◌,
}
use expense_world_engine.Base.Int.{ℤ, pos, ◌+ℤ◌, ◌-ℤ◌, is_negative, pos_part, neg_part}
use expense_world_engine.Base.Sums.{sum_by}
use expense_world_engine.Schema.{
  Text, Db, Account, Category, Transaction, opening_balance, ledger, SystemCategoryKey,
}
use expense_world_engine.Text.{same_text}
use expense_world_engine.Links.{linked_ids, sort_ids}
use expense_world_engine.Categories.{has_key}
use expense_world_engine.HomeBalance.{Zones, resolve_timezone}
use expense_world_engine.HomeCurrency.{signed_home_cents}
use expense_world_engine.Named.{leb_ℤ}

-- The first local instant of a month in a zone, in UTC: `datetime(…, tzinfo=tz).astimezone(utc)`
abbrev pub MonthStart : Type 0
MonthStart = Text → ℕ → ℕ → ℕ

abbrev pub next_month : ℕ × ℕ → ℕ × ℕ
next_month m = if m.1 == 12 then (suc m.0, 1) else (m.0, suc m.1)

-- Year and month are given, or both are those of the current month.
unfoldable pub compute_month_bounds :
    Zones → MonthStart → (Text → ℕ × ℕ) → Text → Option (ℕ × ℕ) → (ℕ × ℕ) × (ℕ × ℕ)
unfolding resolve_timezone
compute_month_bounds z start current tz given =
    let zone = resolve_timezone z tz in
    let m = or_else given (current zone) in
    let n = next_month m in (m, (start zone m.0 m.1, start zone n.0 n.1))

-- A figure with even one unconvertible row is null.
abbrev pub null_if : ℕ → ℤ → Option ℤ
null_if n v = if n == 0 then some v else none

pub record BreakdownRow : Type 0 where
  pub hashtag_ids : List ℕ
  pub spent_home_cents : Option ℤ
  pub unconverted_count : ℕ

abbrev pub breakdown_row : Group → BreakdownRow
breakdown_row g = record {
  hashtag_ids = g.hashtag_ids;
  spent_home_cents = null_if g.unconverted g.spent;
  unconverted_count = g.unconverted;
}

pub record CategoryFlow : Type 0 where
  pub id : ℕ
  pub name : Text
  pub spent_home_cents : Option ℤ
  pub unconverted_count : ℕ
  pub hashtag_breakdown : List BreakdownRow

-- `breakdowns_by_category.get(cat_id, [])`
unfoldable pub breakdown_rows : List Group → ℕ → List BreakdownRow
breakdown_rows gs c = map breakdown_row (select (λ g. g.category_id == c) gs)

-- The figures are summed only where none of them is null.
unfoldable pub category_flow : List Group → Category → CategoryFlow
category_flow gs c =
    let rows = breakdown_rows gs c.id in
    let unconverted = count_by (λ (r : BreakdownRow). r.unconverted_count) rows in
    record {
      id = c.id;
      name = c.name;
      spent_home_cents =
          null_if unconverted
            (sum_by (λ (r : BreakdownRow). or_else r.spent_home_cents (pos 0)) rows);
      unconverted_count = unconverted;
      hashtag_breakdown = rows;
    }

abbrev pub goes_first : (Text → Text → Bool) → Category → Category → Bool
goes_first name_leb c d =
    leb_ℤ c.sort_order d.sort_order
    && (not (leb_ℤ d.sort_order c.sort_order) || name_leb c.name d.name)

-- ORDER BY sort_order ASC, name ASC, the names under the collation of the database
unfoldable pub insert_category_row : (Text → Text → Bool) → Category → List Category → List Category
insert_category_row name_leb c [] = c ∷ []
insert_category_row name_leb c (d ∷ ds) =
    let rest = insert_category_row name_leb c ds in
    if goes_first name_leb c d then c ∷ d ∷ ds else d ∷ rest

unfoldable pub sort_categories : (Text → Text → Bool) → List Category → List Category
sort_categories name_leb [] = []
sort_categories name_leb (c ∷ cs) = insert_category_row name_leb c (sort_categories name_leb cs)

-- `system_key IS DISTINCT FROM 'opening_balance'`
abbrev pub is_reported : ℕ → Category → Bool
is_reported u c = (c.user_id == u && is_none c.deleted_at) && not (has_key opening_balance c)

pub record Totals : Type 0 where
  pub inflow_home_cents : Option ℤ
  pub outflow_home_cents : Option ℤ
  pub net_home_cents : Option ℤ
  pub unconverted_count : ℕ

-- CASE WHEN x > 0 THEN x ELSE 0 END, and its mirror
abbrev pub inflow_part : MonthRow → ℤ
inflow_part r = pos (pos_part (value_or_zero r))

abbrev pub outflow_part : MonthRow → ℤ
outflow_part r = pos (neg_part (value_or_zero r))

unfoldable pub totals : List MonthRow → Totals
totals rows =
    let n = count_by unconvertible rows in
    let inflow = sum_by inflow_part rows in
    let outflow = sum_by outflow_part rows in
    record {
      inflow_home_cents = null_if n inflow;
      outflow_home_cents = null_if n outflow;
      net_home_cents = null_if n (inflow -ℤ outflow);
      unconverted_count = n;
    }

pub record MonthFlow : Type 0 where
  pub categories : List CategoryFlow
  pub month_totals : Totals

unfoldable pub compute_month_flow : (Text → Text → Bool) → Zones → ℕ → ℕ → ℕ → Text → Db → MonthFlow
compute_month_flow name_leb z u start end tz db =
    let rows = month_rows db z u start end tz in
    record {
      categories =
          map (category_flow (breakdown rows))
            (sort_categories name_leb (select (is_reported u) db.categories));
      month_totals = totals rows;
    }
