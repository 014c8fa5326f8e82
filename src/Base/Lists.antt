-- ===== src/Base/Lists.antt =====
-- Lists as SQL tables: the rows that satisfy a predicate, the first of them, and updates of them.
use Prim.Native.Nat.{ℕ, suc}
use mathlib.Core.Path.{◌≡◌, refl}
use mathlib.Core.Logic.{inl, inr}
use mathlib.Core.Bool.{Bool, true, false, ◌||◌}
use mathlib.Core.Option.{Option, none, some}
use mathlib.Core.List.{List, [], ◌∷◌}
use native.Mathlib.Omega.{arith}
use expense_world_engine.Base.Tests.{if◌then◌else◌, Bool-cases}

module _ {ℓ} {A : Type ℓ} where
  -- SELECT … WHERE
  unfoldable pub select : (A → Bool) → List A → List A
  select p [] = []
  select p (x ∷ xs) = let rest = select p xs in if p x then x ∷ rest else rest

  -- SELECT … WHERE … LIMIT 1
  unfoldable pub find : (A → Bool) → List A → Option A
  find p [] = none
  find p (x ∷ xs) = if p x then some x else find p xs

  unfoldable pub exists : (A → Bool) → List A → Bool
  exists p [] = false
  exists p (x ∷ xs) = p x || exists p xs

  -- UPDATE … SET … WHERE
  unfoldable pub update_where : (A → Bool) → (A → A) → List A → List A
  update_where p f [] = []
  update_where p f (x ∷ xs) = (if p x then f x else x) ∷ update_where p f xs

  -- Every element has the property.
  unfoldable pub length : List A → ℕ
  length [] = 0
  length (x ∷ xs) = suc (length xs)

  abbrev pub All {κ} : (A → Type κ) → List A → Type κ
  All P [] = Unit
  All P (x ∷ xs) = P x × All P xs

module _ {ℓ} {A : Type ℓ} where
  pub find_holds : (p : A → Bool) (xs : List A) (x : A) → find p xs ≡ some x → p x ≡ true
  unfolding find
  find_holds p [] x h = ground arith
  find_holds p (y ∷ ys) x h = ground (arith, find_holds p ys x)

  -- An update that no row of interest takes part in.
  pub select-update_where_apart :
      (p q : A → Bool) (f : A → A) (xs : List A)
      → ((x : A) → p x ≡ true → q x ≡ false)
      → ((x : A) → p x ≡ true → q (f x) ≡ false)
      → select q (update_where p f xs) ≡ select q xs
  unfolding select update_where
  select-update_where_apart p q f [] h k = refl
  select-update_where_apart p q f (x ∷ xs) h k =
      ground (arith, h x, k x, select-update_where_apart p q f xs h k)

  pub exists-find : (p : A → Bool) (xs : List A) → find p xs ≡ none → exists p xs ≡ false
  unfolding find exists
  exists-find p [] h = refl
  exists-find p (x ∷ xs) h = ground (arith, exists-find p xs)

  pub exists_false :
      (p q : A → Bool) (xs : List A)
      → ((x : A) → q x ≡ true → p x ≡ true)
      → exists p xs ≡ false
      → exists q xs ≡ false
  unfolding exists
  exists_false p q [] h e = refl
  exists_false p q (x ∷ xs) h e = ground (arith, h x, exists_false p q xs h)

  pub exists_of_find :
      (p q : A → Bool) (xs : List A) (x : A)
      → find p xs ≡ some x
      → exists q xs ≡ false
      → q x ≡ false
  unfolding find exists
  exists_of_find p q [] x e n = cc
  exists_of_find p q (y ∷ ys) x e n = elim (Bool-cases (p y)) [
    | inl h ↦ rw (head h) at (n_head n)
    | inr h ↦ exists_of_find p q ys x (tail h) (n_tail n)
  ]
    where
      head : p y ≡ true → y ≡ x
      head h = ground (arith, e)

      tail : p y ≡ false → find p ys ≡ some x
      tail h = ground (arith, e)

      n_head : exists q (y ∷ ys) ≡ false → q y ≡ false
      n_head h = ground (arith, h)

      n_tail : exists q (y ∷ ys) ≡ false → exists q ys ≡ false
      n_tail h = ground (arith, h)
