-- ===== src/Reports/Rows.antt =====
-- The two CTEs of app/helpers/monthly_report.py: the rows of a month, and GROUP BY category_id,
-- hashtag_ids over them.
use expense_world_engine.Base.{
  ℕ, ◌+◌, Bool, not, ◌&&◌, ◌||◌, Option, List, [], ◌∷◌, map, select, find, exists, ltb, leb, ◌==◌,
  is_none, or_else, if◌then◌else◌,
}
use expense_world_engine.Base.Int.{ℤ, pos, ◌+ℤ◌}
use expense_world_engine.Schema.{Text, Db, Category, Transaction, opening_balance, ledger}
use expense_world_engine.Text.{same_text, precedes}
use expense_world_engine.Links.{linked_ids, sort_ids}
use expense_world_engine.Categories.{has_key}
use expense_world_engine.HomeBalance.{Zones, resolve_timezone}
use expense_world_engine.HomeCurrency.{signed_home_cents}

-- One row of the CTE: its group and its value in the home currency, or NULL
pub record MonthRow : Type 0 where
  pub category_id : ℕ
  pub hashtag_ids : List ℕ
  pub value : Option ℤ

abbrev pub is_opening_row : ℕ → Category → Bool
is_opening_row i c = c.id == i && has_key opening_balance c

abbrev pub in_month : Db → ℕ → ℕ → ℕ → Transaction → Bool
in_month db u start end t =
    (t.user_id == u && is_none t.deleted_at)
    && ((leb start t.date && ltb t.date end)
        && not (exists (is_opening_row t.category_id) db.categories))

-- LEFT JOIN expense_bank_accounts a ON a.id = t.account_id, priced on the row's local day
abbrev pub month_row : Db → Zones → Text → Transaction → MonthRow
month_row db z tz t = record {
  category_id = t.category_id;
  hashtag_ids = sort_ids (linked_ids t.id ledger db.junctions);
  value =
      signed_home_cents db.exchange_rates (find (λ a. a.id == t.account_id) db.accounts)
        (z.local_date (resolve_timezone z tz) t.date) t;
}

unfoldable pub month_rows : Db → Zones → ℕ → ℕ → ℕ → Text → List MonthRow
month_rows db z u start end tz =
    map (month_row db z tz) (select (in_month db u start end) db.transactions)

unfoldable pub count_by : {A : Type 0} → (A → ℕ) → List A → ℕ
count_by g [] = 0
count_by g (x ∷ xs) = g x + count_by g xs

-- What SUM adds for a row: nothing for NULL
abbrev pub value_or_zero : MonthRow → ℤ
value_or_zero r = or_else r.value (pos 0)

abbrev pub unconvertible : MonthRow → ℕ
unconvertible r = if is_none r.value then 1 else 0

-- A group of GROUP BY category_id, hashtag_ids
pub record Group : Type 0 where
  pub category_id : ℕ
  pub hashtag_ids : List ℕ
  pub spent : ℤ
  pub unconverted : ℕ

abbrev pub same_group : MonthRow → Group → Bool
same_group r g = g.category_id == r.category_id && same_text g.hashtag_ids r.hashtag_ids

-- ORDER BY category_id, hashtag_ids
abbrev pub comes_before : MonthRow → Group → Bool
comes_before r g =
    ltb r.category_id g.category_id
    || (r.category_id == g.category_id && precedes r.hashtag_ids g.hashtag_ids)

abbrev pub new_group : MonthRow → Group
new_group r = record {
  category_id = r.category_id;
  hashtag_ids = r.hashtag_ids;
  spent = value_or_zero r;
  unconverted = unconvertible r;
}

abbrev pub joined : MonthRow → Group → Group
joined r g = record g {
  spent = value_or_zero r +ℤ g.spent;
  unconverted = unconvertible r + g.unconverted;
}

unfoldable pub add_to_groups : MonthRow → List Group → List Group
add_to_groups r [] = new_group r ∷ []
add_to_groups r (g ∷ gs) =
    let rest = add_to_groups r gs in
    if same_group r g
    then joined r g ∷ gs
    else if comes_before r g
    then new_group r ∷ g ∷ gs
    else g ∷ rest

unfoldable pub breakdown : List MonthRow → List Group
breakdown [] = []
breakdown (r ∷ rs) = add_to_groups r (breakdown rs)
