-- ===== src/Reports/Sums.antt =====
-- The categories of a month (app/helpers/monthly_report.py) beside its totals.
use expense_world_engine.Base.{
  ℕ, ◌≡◌, refl, sym, ap, subst, ◌∙◌, Bool, true, false, some, List, [], ◌∷◌, map, select, exists,
  All, ◌==◌, or_else, arith, Bool-cases, inl, inr, if◌then◌else◌,
}
use expense_world_engine.Base.Int.{ℤ, pos, ◌+ℤ◌, zero-+ℤ, +ℤ-zero, +ℤ_swap, int_laws}
use expense_world_engine.Base.Sums.{IsUnique, sum_by, part, sum_by-select}
use expense_world_engine.Schema.{Text, Db, Category}
use expense_world_engine.HomeBalance.{Zones}
use expense_world_engine.Reports.{
  MonthRow, value_or_zero, unconvertible, count_by, breakdown, CategoryFlow, category_flow, totals,
  month_rows, compute_month_flow, insert_category_row, goes_first, sort_categories, is_reported,
}
use expense_world_engine.Reports.Groups.{in_category}
use expense_world_engine.Reports.Flow.{category_flow-rows, totals-rows}

-- Sorting keeps every sum.
sum-insert :
    (name_leb : Text → Text → Bool) (g : Category → ℤ) (c : Category) (cs : List Category)
    → sum_by g (insert_category_row name_leb c cs) ≡ g c +ℤ sum_by g cs
unfolding sum_by insert_category_row
sum-insert name_leb g c [] = refl
sum-insert name_leb g c (d ∷ ds) = elim (Bool-cases (goes_first name_leb c d)) [
  | inl e ↦ rw e refl
  | inr e ↦
      rw e (ap (λ n. g d +ℤ n) (sum-insert name_leb g c ds) ∙ +ℤ_swap (g c) (g d) (sum_by g ds))
]

sum-sort :
    (name_leb : Text → Text → Bool) (g : Category → ℤ) (cs : List Category)
    → sum_by g (sort_categories name_leb cs) ≡ sum_by g cs
unfolding sum_by sort_categories
sum-sort name_leb g [] = refl
sum-sort name_leb g (c ∷ cs) =
    sum-insert name_leb g c (sort_categories name_leb cs)
    ∙ ap (λ n. g c +ℤ n) (sum-sort name_leb g cs)

sum-map :
    {A B : Type 0} (f : A → B) (g : B → ℤ) (xs : List A)
    → sum_by g (map f xs) ≡ sum_by (λ x. g (f x)) xs
unfolding sum_by
sum-map f g [] = refl
sum-map f g (x ∷ xs) = rw (sum-map f g xs) refl

sum-cong :
    {A : Type 0} (f g : A → ℤ) (xs : List A) → ((x : A) → f x ≡ g x) → sum_by f xs ≡ sum_by g xs
unfolding sum_by
sum-cong f g [] h = refl
sum-cong f g (x ∷ xs) h = rw (h x, sum-cong f g xs h) refl

-- Of a list of categories with unique ids, a row counts in one at most.
module _ (r : MonthRow) where
  abbrev share : Category → ℤ
  share c = if r.category_id == c.id then value_or_zero r else pos 0

  no_share :
      (cs : List Category)
      → exists (λ (c : Category). c.id == r.category_id) cs ≡ false
      → sum_by share cs ≡ pos 0
  unfolding sum_by exists
  no_share [] h = refl
  no_share (c ∷ cs) h = rw (elsewhere, no_share cs later) (zero-+ℤ (pos 0))
    where
      elsewhere : (r.category_id == c.id) ≡ false
      elsewhere = ground (arith, h)

      later : exists (λ (d : Category). d.id == r.category_id) cs ≡ false
      later = ground (arith, h)

  one_share :
      (cs : List Category)
      → IsUnique (λ (c : Category). c.id) cs
      → exists (λ (c : Category). c.id == r.category_id) cs ≡ true
      → sum_by share cs ≡ value_or_zero r
  unfolding sum_by exists
  one_share [] u h = cc
  one_share (c ∷ cs) u h = elim (Bool-cases (r.category_id == c.id)) [
    | inl e ↦ rw (e, no_share cs (others e)) (+ℤ-zero (value_or_zero r))
    | inr e ↦ rw e (zero-+ℤ (sum_by share cs) ∙ one_share cs u.1 (later e))
  ]
    where
      same : (r.category_id == c.id) ≡ true → r.category_id ≡ c.id
      same e = ground (arith, e)

      others :
          (r.category_id == c.id) ≡ true
          → exists (λ (d : Category). d.id == r.category_id) cs ≡ false
      others e = subst (λ i. exists (λ (d : Category). d.id == i) cs ≡ false) (sym (same e)) u.0

      later :
          (r.category_id == c.id) ≡ false
          → exists (λ (d : Category). d.id == r.category_id) cs ≡ true
      later e = ground (arith, h, e)

sum_by-zero : {A : Type 0} (xs : List A) → sum_by (λ (x : A). pos 0) xs ≡ pos 0
unfolding sum_by
sum_by-zero [] = refl
sum_by-zero (x ∷ xs) = rw (sum_by-zero xs) (zero-+ℤ (pos 0))

+ℤ_middle : (a b c d : ℤ) → (a +ℤ b) +ℤ (c +ℤ d) ≡ (a +ℤ c) +ℤ (b +ℤ d)
+ℤ_middle a b c d = omega int_laws

sum_by-+ℤ :
    {A : Type 0} (f g : A → ℤ) (xs : List A)
    → sum_by (λ x. f x +ℤ g x) xs ≡ sum_by f xs +ℤ sum_by g xs
unfolding sum_by
sum_by-+ℤ f g [] = sym (zero-+ℤ (pos 0))
sum_by-+ℤ f g (x ∷ xs) = ap (λ n. (f x +ℤ g x) +ℤ n) (sum_by-+ℤ f g xs) ∙ +ℤ_middle (f x) (g x) _ _

abbrev pub HasCategory : List Category → MonthRow → Type 0
HasCategory cs r = exists (λ (c : Category). c.id == r.category_id) cs ≡ true

-- The rows of each category, summed over the categories, are the rows.
by_category :
    (cs : List Category) (rows : List MonthRow)
    → IsUnique (λ (c : Category). c.id) cs
    → All (HasCategory cs) rows
    → sum_by (λ (c : Category). sum_by (part (in_category c.id) value_or_zero) rows) cs
      ≡ sum_by value_or_zero rows
unfolding sum_by
by_category cs [] u h = sum_by-zero cs
by_category cs (r ∷ rs) u h =
    sum_by-+ℤ (share r) (λ c. sum_by (part (in_category c.id) value_or_zero) rs) cs
    ∙ rw (one_share r cs u h.0, by_category cs rs u h.1) refl

-- Without a NULL in the month there is none in a category.
none_in_category :
    (c : ℕ) (rows : List MonthRow)
    → count_by unconvertible rows ≡ 0
    → count_by unconvertible (select (in_category c) rows) ≡ 0
unfolding count_by select
none_in_category c [] h = refl
none_in_category c (r ∷ rs) h = elim (Bool-cases (in_category c r)) [
  | inl e ↦ rw e (omega (arith, h, none_in_category c rs (later r)))
  | inr e ↦ rw e (none_in_category c rs (later r))
]
  where
    later : (x : MonthRow) → count_by unconvertible rs ≡ 0
    later x = omega (arith, h)

abbrev pub figure : CategoryFlow → ℤ
figure c = or_else c.spent_home_cents (pos 0)

figure_of :
    (rows : List MonthRow)
    → count_by unconvertible rows ≡ 0
    → (c : Category)
    → figure (category_flow (breakdown rows) c)
      ≡ sum_by (part (in_category c.id) value_or_zero) rows
figure_of rows h c =
    rw ((category_flow-rows rows c).0, none_in_category c.id rows h)
      (sum_by-select (in_category c.id) value_or_zero rows)

-- In a month without an unconvertible row, the net is the sum of the figures of the categories, if
-- the ids of the user's categories in the report are unique and each row of the month has its
-- category among them.
pub compute_month_flow-net :
    (name_leb : Text → Text → Bool) (z : Zones) (u start end : ℕ) (tz : Text) (db : Db)
    → (let flow = compute_month_flow name_leb z u start end tz db in
        flow.month_totals.unconverted_count ≡ 0)
    → IsUnique (λ (c : Category). c.id) (select (is_reported u) db.categories)
    → All (HasCategory (select (is_reported u) db.categories)) (month_rows db z u start end tz)
    → (let flow = compute_month_flow name_leb z u start end tz db in
        flow.month_totals.net_home_cents ≡ some (sum_by figure flow.categories))
unfolding compute_month_flow totals
compute_month_flow-net name_leb z u start end tz db n k h =
    totals-rows rows ∙ rw n (ap some (sym total))
  where
    rows : List MonthRow
    rows = month_rows db z u start end tz

    reported : List Category
    reported = select (is_reported u) db.categories

    total :
        sum_by figure (map (category_flow (breakdown rows)) (sort_categories name_leb reported))
        ≡ sum_by value_or_zero rows
    total =
        sum-map (category_flow (breakdown rows)) figure (sort_categories name_leb reported)
        ∙ (sum-sort name_leb (λ c. figure (category_flow (breakdown rows) c)) reported
            ∙ (sum-cong _ _ reported (figure_of rows n) ∙ by_category reported rows k h))
