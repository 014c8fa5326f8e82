-- ===== src/Named/Unique.antt =====
-- `name_taken` of app/helpers/reference_data.py, beside the partial unique indexes of sql/012 and
-- sql/028: (user_id, LOWER(name)), for accounts with currency_code, over active rows.
use expense_world_engine.Base.{
  ℕ, ◌≡◌, refl, Bool, true, false, ◌||◌, List, [], ◌∷◌, exists, update_where, ◌==◌, exists_false,
  All, arith, Bool-cases, inl, inr,
}
use expense_world_engine.Base.Sums.{IsUnique, update_where_none}

-- No two rows of the list clash.
module _ {ℓ} {A : Type ℓ} (clash : A → A → Bool) where
  abbrev pub IsApart : List A → Type 0
  IsApart [] = Unit
  IsApart (x ∷ xs) = (exists (clash x) xs ≡ false) × IsApart xs

exists_or :
    {A : Type 0} (p q : A → Bool) (xs : List A)
    → exists p xs ≡ false
    → exists q xs ≡ false
    → exists (λ x. p x || q x) xs ≡ false
unfolding exists
exists_or p q [] hp hq = refl
exists_or p q (x ∷ xs) hp hq = ground (arith, hp, hq, exists_or p q xs)

-- An update of the row with one id, after `taken` found no other row in the way.
module _ {A : Type 0} (clash : A → A → Bool) (symmetric : (x y : A) → clash x y ≡ clash y x)
    (key : A → ℕ) (p : A → Bool) (f : A → A) (taken : A → Bool) (i : ℕ)
    (by_key : (x : A) → p x ≡ true → (key x == i) ≡ true) (same_key : (x : A) → key (f x) ≡ key x)
    (Fits : A → Type 0)
    (guarded : (x y : A)
      → p x ≡ true
      → Fits x
      → (key y == i) ≡ false
      → (clash x y || taken y) ≡ false
      → clash (f x) y ≡ false) where
  -- Every other row has another key.
  apart_keys :
      (x : A) (xs : List A)
      → p x ≡ true
      → exists (λ y. key y == key x) xs ≡ false
      → exists p xs ≡ false
  apart_keys x xs e u =
      exists_false (λ y. key y == key x) p xs (λ y t. ground (arith, by_key x e, by_key y t)) u

  changed_head :
      (x : A) (xs : List A)
      → p x ≡ true
      → Fits x
      → exists (λ y. key y == key x) xs ≡ false
      → exists (clash x) xs ≡ false
      → exists taken xs ≡ false
      → exists (clash (f x)) xs ≡ false
  changed_head x xs e fit u c t =
      exists_false (λ y. (key y == key x) || (clash x y || taken y)) (clash (f x)) xs blocked
        (exists_or (λ y. key y == key x) (λ y. clash x y || taken y) xs u
          (exists_or (clash x) taken xs c t))
    where
      blocked : (y : A) → clash (f x) y ≡ true → ((key y == key x) || (clash x y || taken y)) ≡ true
      blocked y k = elim (Bool-cases (key y == key x)) [
        | inl n ↦ rw n refl
        | inr n ↦ elim (Bool-cases (clash x y || taken y)) [
          | inl m ↦ rw n m
          | inr m ↦ absurd (ground (arith, k, guarded x y e fit (ground (arith, n, by_key x e)) m))
        ]
      ]

  moved :
      (x y : A)
      → p y ≡ true
      → Fits y
      → (key y == key x) ≡ false
      → clash x y ≡ false
      → taken x ≡ false
      → clash x (f y) ≡ false
  moved x y k fit n c t = rw (symmetric x (f y)) (
      guarded y x k fit (ground (arith, n, by_key y k)) (rw (symmetric y x) (ground (arith, c, t))))

  kept_head :
      (x : A) (xs : List A)
      → exists (λ y. key y == key x) xs ≡ false
      → exists (clash x) xs ≡ false
      → taken x ≡ false
      → All (λ y. p y ≡ true → Fits y) xs
      → exists (clash x) (update_where p f xs) ≡ false
  unfolding exists update_where
  kept_head x [] u c t fits = refl
  kept_head x (y ∷ ys) u c t fits = elim (Bool-cases (p y)) [
    | inl k ↦ rw k (
        ground (
          arith,
          moved x y k (fits.0 k) (ground (arith, u)) (ground (arith, c)) t,
          kept_head x ys (ground (arith, u)) (ground (arith, c)) t fits.1,
        ))
    | inr k ↦
        rw k (ground (arith, c, kept_head x ys (ground (arith, u)) (ground (arith, c)) t fits.1))
  ]

  pub IsApart-update_where :
      (xs : List A)
      → IsUnique key xs
      → IsApart clash xs
      → exists taken xs ≡ false
      → All (λ x. p x ≡ true → Fits x) xs
      → IsApart clash (update_where p f xs)
  unfolding update_where exists
  IsApart-update_where [] u a t fits = tt
  IsApart-update_where (x ∷ xs) u a t fits = elim (Bool-cases (p x)) [
    | inl e ↦
        rw (e, update_where_none p f xs (apart_keys x xs e u.0))
          (changed_head x xs e (fits.0 e) u.0 a.0 (later t), a.1)
    | inr e ↦
        rw e (
          kept_head x xs u.0 a.0 (first t) fits.1,
          IsApart-update_where xs u.1 a.1 (later t) fits.1,
        )
  ]
    where
      first : exists taken (x ∷ xs) ≡ false → taken x ≡ false
      first h = ground (arith, h)

      later : exists taken (x ∷ xs) ≡ false → exists taken xs ≡ false
      later h = ground (arith, h)
