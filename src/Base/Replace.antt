-- ===== src/Base/Replace.antt =====
-- The update of one row by its key: what it does to a sum, and what it returns.
use Prim.Native.Nat.{ℕ}
use mathlib.Core.Path.{◌≡◌, refl, sym, ap, subst}
use mathlib.Core.Bool.{Bool, true, false}
use mathlib.Core.Option.{none, some}
use mathlib.Core.List.{List, [], ◌∷◌}
use mathlib.Core.Logic.{inl, inr}
use native.Mathlib.Omega.{arith}
use expense_world_engine.Base.Tests.{Bool-cases, ◌==◌, if◌then◌else◌}
use expense_world_engine.Base.Lists.{
  All, find, exists, update_where, find_holds, exists_false, exists_of_find,
}
use expense_world_engine.Base.Int.{ℤ, ◌+ℤ◌, +ℤ_exchange, +ℤ_under}
use expense_world_engine.Base.Sums.{IsUnique, sum_by, update_where_none}

module _ {ℓ} {A : Type ℓ} (key : A → ℕ) (p r : A → Bool) (i : ℕ)
    (p_by_key : (x : A) → p x ≡ true → (key x == i) ≡ true)
    (r_by_key : (x : A) → r x ≡ true → (key x == i) ≡ true) where
  -- If `r` finds a row, then `p` holds of no other row.
  alone :
      (x : A) (xs : List A)
      → r x ≡ true
      → exists (λ y. key y == key x) xs ≡ false
      → exists p xs ≡ false
  alone x xs k e =
      exists_false (λ y. key y == key x) p xs (λ y t. ground (arith, p_by_key y t, r_by_key x k)) e

  apart :
      (x : A) (xs : List A) (row : A)
      → find r xs ≡ some row
      → exists (λ y. key y == key x) xs ≡ false
      → p x ≡ true
      → ⊥
  apart x xs row e u t = ground (
    arith,
    p_by_key x t,
    r_by_key row (find_holds r xs row e),
    exists_of_find r (λ y. key y == key x) xs row e u,
  )

  pub find_same :
      (xs : List A) (row : A)
      → IsUnique key xs
      → find r xs ≡ some row
      → p row ≡ true
      → find p xs ≡ some row
  unfolding find
  find_same [] row u e h = cc
  find_same (x ∷ xs) row u e h = elim (Bool-cases (r x)) [
    | inl k ↦ ground (arith, e, h, k)
    | inr k ↦ elim (Bool-cases (p x)) [
      | inl t ↦ absurd (apart x xs row (later k) u.0 t)
      | inr t ↦ rw t (find_same xs row u.1 (later k) h)
    ]
  ]
    where
      later : r x ≡ false → find r xs ≡ some row
      later k = ground (arith, e)

  -- The sum loses what the row added and gains what the new row adds.
  pub sum_by-update_where :
      (g : A → ℤ) (f : A → A) (xs : List A) (row : A)
      → IsUnique key xs
      → find r xs ≡ some row
      → p row ≡ true
      → sum_by g (update_where p f xs) +ℤ g row ≡ sum_by g xs +ℤ g (f row)
  unfolding sum_by update_where find
  sum_by-update_where g f [] row u e h = cc
  sum_by-update_where g f (x ∷ xs) row u e h = elim (Bool-cases (r x)) [
    | inl k ↦ rw (here k) (
        rw h (
          rw (update_where_none p f xs (alone x xs k u.0))
            (+ℤ_exchange (g (f row)) (sum_by g xs) (g row))))
    | inr k ↦ elim (Bool-cases (p x)) [
      | inl t ↦ absurd (apart x xs row (later k) u.0 t)
      | inr t ↦
          rw t (
            +ℤ_under (g x) _ (g row) _ (g (f row)) (sum_by-update_where g f xs row u.1 (later k) h))
    ]
  ]
    where
      here : r x ≡ true → x ≡ row
      here k = ground (arith, e)

      later : r x ≡ false → find r xs ≡ some row
      later k = ground (arith, e)

module _ {ℓ} {A : Type ℓ} where
  -- An update of the found row that the predicate does not see.
  pub find-update_where :
      (q p : A → Bool) (f : A → A) (xs : List A) (row : A)
      → ((x : A) → q (f x) ≡ q x)
      → find q xs ≡ some row
      → p row ≡ true
      → find q (update_where p f xs) ≡ some (f row)
  unfolding find update_where
  find-update_where q p f [] row same e h = cc
  find-update_where q p f (x ∷ xs) row same e h = elim (Bool-cases (q x)) [
    | inl k ↦ rw (here k) (rw h (rw (same row) (rw (sym (here k)) (rw k (rw (here k) refl)))))
    | inr k ↦ rw (skipped k) (find-update_where q p f xs row same (later k) h)
  ]
    where
      here : q x ≡ true → x ≡ row
      here k = ground (arith, e)

      later : q x ≡ false → find q xs ≡ some row
      later k = ground (arith, e)

      skipped : q x ≡ false → q (if p x then f x else x) ≡ false
      skipped k = ground (arith, same x, k)

  pub exists_true :
      (q s : A → Bool) (xs : List A) (row : A)
      → ((x : A) → q x ≡ true → s x ≡ true)
      → find q xs ≡ some row
      → exists s xs ≡ true
  unfolding find exists
  exists_true q s [] row h e = cc
  exists_true q s (x ∷ xs) row h e = ground (arith, h x, exists_true q s xs row h)

module _ {ℓ} {A : Type ℓ} where
  -- The row that a SELECT found is there for any other test that it passes.
  pub exists_found :
      (q s : A → Bool) (xs : List A) (row : A)
      → find q xs ≡ some row
      → s row ≡ true
      → exists s xs ≡ true
  unfolding find exists
  exists_found q s [] row e h = cc
  exists_found q s (x ∷ xs) row e h = elim (Bool-cases (q x)) [
    | inl k ↦ ground (arith, here k, h)
    | inr k ↦ ground (arith, exists_found q s xs row (later k) h)
  ]
    where
      here : q x ≡ true → s x ≡ s row
      here k = ap s (ground (arith, e))

      later : q x ≡ false → find q xs ≡ some row
      later k = ground (arith, e)

module _ {ℓ} {A : Type ℓ} where
  pub exists-update_all :
      (q p : A → Bool) (f : A → A) (xs : List A)
      → ((x : A) → p x ≡ false → q x ≡ false)
      → ((x : A) → q (f x) ≡ false)
      → exists q (update_where p f xs) ≡ false
  unfolding exists update_where
  exists-update_all q p f [] h k = refl
  exists-update_all q p f (x ∷ xs) h k = ground (arith, h x, k x, exists-update_all q p f xs h k)

  pub find-exists : (q : A → Bool) (xs : List A) → exists q xs ≡ false → find q xs ≡ none
  unfolding exists find
  find-exists q [] h = refl
  find-exists q (x ∷ xs) h = ground (arith, h, find-exists q xs)

module _ {ℓ κ} {A : Type ℓ} (P : A → Type κ) where
  All-exists_false :
      (q : A → Bool) (xs : List A) → ((x : A) → q x ≡ false → P x) → exists q xs ≡ false → All P xs
  unfolding exists
  All-exists_false q [] h e = tt
  All-exists_false q (x ∷ xs) h e =
      (h x (ground (arith, e)), All-exists_false q xs h (ground (arith, e)))

  -- What holds of the row that is found by its key, and of every row with another key, holds of all.
  pub All-unique :
      (key : A → ℕ) (r : A → Bool) (i : ℕ) (xs : List A) (row : A)
      → ((x : A) → r x ≡ true → (key x == i) ≡ true)
      → IsUnique key xs
      → find r xs ≡ some row
      → P row
      → ((x : A) → (key x == i) ≡ false → P x)
      → All P xs
  unfolding find
  All-unique key r i [] row hr u e h others = tt
  All-unique key r i (x ∷ xs) row hr u e h others = elim (Bool-cases (r x)) [
    | inl k ↦ (
      subst P (sym (here k)) h,
      All-exists_false (λ y. key y == key x) xs (λ y n. others y (ground (arith, hr x k, n))) u.0,
    )
    | inr k ↦ (
      others x (
          ground (
            arith,
            hr row (find_holds r xs row (later k)),
            exists_of_find r (λ y. key y == key x) xs row (later k) u.0,
          )),
      All-unique key r i xs row hr u.1 (later k) h others,
    )
  ]
    where
      here : r x ≡ true → x ≡ row
      here k = ground (arith, e)

      later : r x ≡ false → find r xs ≡ some row
      later k = ground (arith, e)
