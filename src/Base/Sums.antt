-- ===== src/Base/Sums.antt =====
-- Sums over the rows of a table, and how an update of the table moves them.
use Prim.Native.Nat.{ℕ}
use mathlib.Core.Path.{◌≡◌, refl, sym, ◌∙◌}
use mathlib.Core.Bool.{Bool, true, false}
use mathlib.Core.List.{List, [], ◌∷◌}
use native.Mathlib.Omega.{arith}
use expense_world_engine.Base.Tests.{if◌then◌else◌, Bool-cases, ◌==◌}
use expense_world_engine.Base.Lists.{exists, update_where, select}
use expense_world_engine.Base.Int.{ℤ, pos, ◌+ℤ◌, zero-+ℤ}
use mathlib.Core.Logic.{inl, inr}

module _ {ℓ} {A : Type ℓ} where
  -- COALESCE(SUM(g), 0)
  unfoldable pub sum_by : (A → ℤ) → List A → ℤ
  sum_by g [] = pos 0
  sum_by g (x ∷ xs) = g x +ℤ sum_by g xs

  -- No row satisfies the predicate.
  pub update_where_none :
      (p : A → Bool) (f : A → A) (xs : List A) → exists p xs ≡ false → update_where p f xs ≡ xs
  unfolding exists update_where
  update_where_none p f [] h = refl
  update_where_none p f (x ∷ xs) h = ground (arith, update_where_none p f xs)

module _ {ℓ} {A : Type ℓ} where
  -- What one row adds to the sum over the selected rows.
  abbrev pub part : (A → Bool) → (A → ℤ) → A → ℤ
  part p g x = if p x then g x else pos 0

  pub sum_by-select :
      (p : A → Bool) (g : A → ℤ) (xs : List A) → sum_by g (select p xs) ≡ sum_by (part p g) xs
  unfolding sum_by select
  sum_by-select p g [] = refl
  sum_by-select p g (x ∷ xs) = elim (Bool-cases (p x)) [
    | inl e ↦ rw e (rw (sum_by-select p g xs))
    | inr e ↦ rw e (sum_by-select p g xs ∙ sym (zero-+ℤ _))
  ]

  pub exists-update_where :
      (q p : A → Bool) (f : A → A) (xs : List A)
      → ((x : A) → p x ≡ true → q x ≡ false → q (f x) ≡ false)
      → exists q xs ≡ false
      → exists q (update_where p f xs) ≡ false
  unfolding update_where exists
  exists-update_where q p f [] h e = refl
  exists-update_where q p f (x ∷ xs) h e = ground (arith, h x, exists-update_where q p f xs h)

-- No two rows have one key.
module _ {ℓ} {A : Type ℓ} (key : A → ℕ) where
  abbrev pub IsUnique : List A → Type 0
  IsUnique [] = Unit
  IsUnique (x ∷ xs) = (exists (λ y. key y == key x) xs ≡ false) × IsUnique xs

  pub IsUnique-update_where :
      (p : A → Bool) (f : A → A) (xs : List A)
      → ((x : A) → key (f x) ≡ key x)
      → IsUnique xs
      → IsUnique (update_where p f xs)
  unfolding update_where
  IsUnique-update_where p f [] h u = tt
  IsUnique-update_where p f (x ∷ xs) h u = (
    rw (key_of_head (p x))
        (exists-update_where (λ y. key y == key x) p f xs (λ y _ e. rw (h y) e) u.0),
    IsUnique-update_where p f xs h u.1,
  )
    where
      key_of_head : (b : Bool) → key (if b then f x else x) ≡ key x
      key_of_head true = h x
      key_of_head false = refl
