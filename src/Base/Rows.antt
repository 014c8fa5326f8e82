-- ===== src/Base/Rows.antt =====
-- What a client sees of the rows of a table that it selects, and the updates that do not show.
use Prim.Native.Nat.{ℕ}
use mathlib.Core.Path.{◌≡◌, refl, sym, ap, subst}
use mathlib.Core.Bool.{Bool, true, false}
use mathlib.Core.Option.{some}
use mathlib.Core.List.{List, [], ◌∷◌, map}
use mathlib.Core.Logic.{inl, inr}
use native.Mathlib.Omega.{arith}
use expense_world_engine.Base.Tests.{if◌then◌else◌, Bool-cases, ◌==◌}
use expense_world_engine.Base.Lists.{
  find, exists, update_where, select, All, find_holds, exists_false, exists_of_find,
}
use expense_world_engine.Base.Sums.{IsUnique, update_where_none}

module _ {ℓ κ} {A : Type ℓ} (P : A → Type κ) where
  pub All-update_where :
      (p : A → Bool) (f : A → A) (xs : List A)
      → ((x : A) → p x ≡ true → P x → P (f x))
      → All P xs
      → All P (update_where p f xs)
  unfolding update_where
  All-update_where p f [] h a = tt
  All-update_where p f (x ∷ xs) h a = elim (Bool-cases (p x)) [
    | inl e ↦ rw e (h x e a.0, All-update_where p f xs h a.1)
    | inr e ↦ rw e (a.0, All-update_where p f xs h a.1)
  ]

  pub All-find : (p : A → Bool) (xs : List A) (row : A) → All P xs → find p xs ≡ some row → P row
  unfolding find
  All-find p [] row a e = cc
  All-find p (x ∷ xs) row a e = elim (Bool-cases (p x)) [
    | inl h ↦ subst P (here h) a.0
    | inr h ↦ All-find p xs row a.1 (later h)
  ]
    where
      here : p x ≡ true → x ≡ row
      here h = ground (arith, e)

      later : p x ≡ false → find p xs ≡ some row
      later h = ground (arith, e)

module _ {ℓ} {A : Type ℓ} where
  pub exists-update_where_keep :
      (q p : A → Bool) (f : A → A) (xs : List A)
      → ((x : A) → q (f x) ≡ q x)
      → exists q (update_where p f xs) ≡ exists q xs
  unfolding exists update_where
  exists-update_where_keep q p f [] h = refl
  exists-update_where_keep q p f (x ∷ xs) h =
      ground (arith, h x, exists-update_where_keep q p f xs h)

module _ {ℓ κ} {A : Type ℓ} {B : Type κ} (q : A → Bool) (g : A → B) where
  -- What is seen of the selected rows.
  unfoldable pub view : List A → List B
  view xs = map g (select q xs)

  -- The two rows are seen alike.
  pub record Alike (x y : A) : Type (ℓ ⊔ κ) where
    pub chosen : q x ≡ q y
    pub seen : q y ≡ true → g x ≡ g y

  Alike-refl : (x : A) → Alike x x
  Alike-refl x = record { chosen = refl; seen = λ _. refl }

  view_cons :
      (x y : A) (xs ys : List A) → Alike x y → view xs ≡ view ys → view (x ∷ xs) ≡ view (y ∷ ys)
  unfolding view select
  view_cons x y xs ys h e = elim (Bool-cases (q y)) [
    | inl k ↦ rw h.chosen (rw k (rw (h.seen k) (ap (λ l. g y ∷ l) e)))
    | inr k ↦ rw h.chosen (rw k e)
  ]

  view_head :
      (p : A → Bool) (f : A → A) (x : A)
      → (p x ≡ true → Alike (f x) x)
      → Alike (if p x then f x else x) x
  view_head p f x h = elim (Bool-cases (p x)) [ inl e ↦ rw e (h e) | inr e ↦ rw e (Alike-refl x) ]

  pub view-update_where :
      (p : A → Bool) (f : A → A) (xs : List A)
      → ((x : A) → p x ≡ true → Alike (f x) x)
      → view (update_where p f xs) ≡ view xs
  unfolding update_where
  view-update_where p f [] h = refl
  view-update_where p f (x ∷ xs) h =
      view_cons _ x _ xs (view_head p f x (h x)) (view-update_where p f xs h)

  -- A row found by its key is the only one that an update by that key touches.
  pub view-update_unique :
      (key : A → ℕ) (p r : A → Bool) (f : A → A) (i : ℕ) (xs : List A) (row : A)
      → ((x : A) → p x ≡ true → (key x == i) ≡ true)
      → ((x : A) → r x ≡ true → (key x == i) ≡ true)
      → IsUnique key xs
      → find r xs ≡ some row
      → Alike (f row) row
      → view (update_where p f xs) ≡ view xs
  unfolding update_where find
  view-update_unique key p r f i [] row hp hr u e h = refl
  view-update_unique key p r f i (x ∷ xs) row hp hr u e h = elim (Bool-cases (r x)) [
    | inl k ↦
        view_cons _ x _ xs (view_head p f x (λ _. subst (λ y. Alike (f y) y) (sym (here k)) h))
          (ap view (update_where_none p f xs (alone k)))
    | inr k ↦
        view_cons _ x _ xs (view_head p f x (λ t. absurd (apart t k)))
          (view-update_unique key p r f i xs row hp hr u.1 (later k) h)
  ]
    where
      here : r x ≡ true → x ≡ row
      here k = ground (arith, e)

      later : r x ≡ false → find r xs ≡ some row
      later k = ground (arith, e)

      alone : r x ≡ true → exists p xs ≡ false
      alone k = exists_false (λ y. key y == key x) p xs (λ y t. ground (arith, hp y t, hr x k)) u.0

      apart : p x ≡ true → r x ≡ false → ⊥
      apart t k = ground (
        arith,
        hp x t,
        hr row (find_holds r xs row (later k)),
        exists_of_find r (λ y. key y == key x) xs row (later k) u.0,
      )
