-- ===== src/Named/Order.antt =====
-- `next_sort_order` of app/helpers/reference_data.py.
use expense_world_engine.Base.{
  ℕ, ◌≡◌, refl, subst, ◌∙◌, not, Bool, true, false, Option, none, some, List, [], ◌∷◌, map, select,
  exists, ◌&&◌, All, arith, if◌then◌else◌, Bool-cases, inl, inr, some-injective, sym,
}
use expense_world_engine.Base.Int.{ℤ, ◌+ℤ◌, pos}
use expense_world_engine.Schema.{Db}
use expense_world_engine.Exec.{ok, err, internal_error, gets, raise, ◌>>=◌}
use expense_world_engine.Exec.Outcome.{
  Triple, Triple-bind, Triple-gets, Triple-raise_if, Triple-pure, Triple-post, Triple-result,
}
use expense_world_engine.Named.{
  NamedTable, leb_ℤ, fits_int4, max_of, maximum, successor, is_in_collection, next_sort_order,
}

-- m < n
abbrev pub IsBelow : ℤ → ℤ → Type 0
IsBelow m n = leb_ℤ n m ≡ false

IsBelow-successor : (k m : ℤ) → leb_ℤ k m ≡ true → IsBelow k (m +ℤ pos 1)
unfolding ◌+ℤ◌
IsBelow-successor k m h = ground (arith, h)

IsBelow-trans : (k m n : ℤ) → leb_ℤ k m ≡ true → IsBelow m n → IsBelow k n
IsBelow-trans k m n h b = ground (arith, h, b)

leb_refl : (m : ℤ) → leb_ℤ m m ≡ true
leb_refl m = ground arith

leb_flip : (m n : ℤ) → leb_ℤ m n ≡ false → leb_ℤ n m ≡ true
leb_flip m n h = ground (arith, h)

holds_of_not : (b : Bool) → not b ≡ false → b ≡ true
holds_of_not b h = ground (arith, h)

module _ {R : Type 0} (g : R → ℤ) where
  raise_bound :
      (m n : ℤ) (rs : List R)
      → leb_ℤ m n ≡ true
      → All (λ r. leb_ℤ (g r) m ≡ true) rs
      → All (λ r. leb_ℤ (g r) n ≡ true) rs
  raise_bound m n [] h a = tt
  raise_bound m n (r ∷ rs) h a = (ground (arith, h, a.0), raise_bound m n rs h a.1)

  maximum-none : (P : R → Type 0) (rs : List R) → maximum (map g rs) ≡ none → All P rs
  unfolding maximum
  maximum-none P [] h = tt
  maximum-none P (r ∷ rs) h = absurd (ground (arith, h))

  max_of_first : (n : ℤ) (o : Option ℤ) → leb_ℤ n (max_of n o) ≡ true
  max_of_first n none = leb_refl n
  max_of_first n (some m) = elim (Bool-cases (leb_ℤ m n)) [
    | inl e ↦ rw e (leb_refl n)
    | inr e ↦ rw e (leb_flip m n e)
  ]

  max_of_rest : (n m : ℤ) → leb_ℤ m (max_of n (some m)) ≡ true
  max_of_rest n m = elim (Bool-cases (leb_ℤ m n)) [ inl e ↦ rw e e | inr e ↦ rw e (leb_refl m) ]

  bounded :
      (r : R) (rs : List R) (o : Option ℤ)
      → maximum (map g rs) ≡ o
      → ((m : ℤ) → maximum (map g rs) ≡ some m → All (λ x. leb_ℤ (g x) m ≡ true) rs)
      → All (λ x. leb_ℤ (g x) (max_of (g r) o) ≡ true) rs
  bounded r rs none e h = maximum-none _ rs e
  bounded r rs (some m) e h = raise_bound m _ rs (max_of_rest (g r) m) (h m e)

  maximum-All :
      (rs : List R) (m : ℤ) → maximum (map g rs) ≡ some m → All (λ r. leb_ℤ (g r) m ≡ true) rs
  unfolding maximum
  maximum-All [] m h = tt
  maximum-All (r ∷ rs) m h =
      subst (λ k. All (λ x. leb_ℤ (g x) k ≡ true) (r ∷ rs)) (some-injective _ _ h)
        (max_of_first (g r) _, bounded r rs (maximum (map g rs)) refl (maximum-All rs))

  above-All :
      (m : ℤ) (rs : List R)
      → All (λ r. leb_ℤ (g r) m ≡ true) rs
      → All (λ r. IsBelow (g r) (m +ℤ pos 1)) rs
  above-All m [] a = tt
  above-All m (r ∷ rs) a = (IsBelow-successor (g r) m a.0, above-All m rs a.1)

  above_successor :
      (rs : List R) (o : Option ℤ)
      → maximum (map g rs) ≡ o
      → All (λ r. IsBelow (g r) (successor o)) rs
  above_successor rs none e = maximum-none _ rs e
  above_successor rs (some m) e = above-All m rs (maximum-All rs m e)

module _ {R : Type 0} (t : NamedTable R) (u : ℕ) (scope : Option (R → Bool)) where
  abbrev collection : Db → List R
  collection db = select (is_in_collection t u scope) (t.table.rows db)

  next_sort_order-Triple :
      (db : Db)
      → Triple
          (λ d. d ≡ db)
          (next_sort_order t u scope)
          (λ n _.
            (successor (maximum (map t.sort_order_of (collection db))) ≡ n) × (fits_int4 n ≡ true))
          (λ _. Unit)
  unfolding next_sort_order
  next_sort_order-Triple db = Triple-bind (Triple-gets (λ _ _. tt) _) λ next.
      Triple-bind (Triple-raise_if (λ _ _. tt) _ internal_error) λ _.
        Triple-post
          (λ n d h. (
            subst (λ x. successor (maximum (map t.sort_order_of (collection x))) ≡ n) h.0.0.0
                (h.0.0.1 ∙ sym h.1),
            rw h.1 (holds_of_not (fits_int4 next) h.0.1),
          ))
          (Triple-pure (λ _ _. tt) next)

-- A slot that is returned is above every slot of the user's collection, deleted rows included, and
-- fits the column.
pub next_sort_order-IsBelow :
    {R : Type 0} (t : NamedTable R) (u : ℕ) (scope : Option (R → Bool)) (db after : Db) (n : ℤ)
    → next_sort_order t u scope db ≡ (ok n, after)
    → All
        (λ r. IsBelow (t.sort_order_of r) n)
        (select (is_in_collection t u scope) (t.table.rows db))
      × (fits_int4 n ≡ true)
next_sort_order-IsBelow t u scope db after n h =
    let r = Triple-result (next_sort_order-Triple t u scope db) db n after refl h in
    (
      subst (λ k. All (λ x. IsBelow (t.sort_order_of x) k) (collection t u scope db)) r.0
          (above_successor t.sort_order_of (collection t u scope db) _ refl),
      r.1,
    )

full_at : (k n : ℤ) → leb_ℤ (pos 2147483647) k ≡ true → IsBelow k n → fits_int4 n ≡ false
full_at k n h b = ground (arith, h, b)

selected :
    {R : Type 0} (g : R → ℤ) (p : R → Bool) (n : ℤ) (r : R) (rs : List R) (b : Bool)
    → p r ≡ b
    → All (λ x. IsBelow (g x) n) (select p (r ∷ rs))
    → All (λ x. IsBelow (g x) n) (if b then r ∷ select p rs else select p rs)
unfolding select
selected g p n r rs b e a =
    subst (λ k. All (λ x. IsBelow (g x) n) (if k then r ∷ select p rs else select p rs)) e a

full_slot :
    {R : Type 0} (g : R → ℤ) (p : R → Bool) (n : ℤ) (rs : List R)
    → exists (λ r. p r && leb_ℤ (pos 2147483647) (g r)) rs ≡ true
    → All (λ r. IsBelow (g r) n) (select p rs)
    → fits_int4 n ≡ false
unfolding exists select
full_slot g p n [] h a = absurd (ground (arith, h))
full_slot g p n (r ∷ rs) h a = elim (Bool-cases (p r)) [
  | inr e ↦ full_slot g p n rs (ground (arith, h, e)) (selected g p n r rs false e a)
  | inl e ↦ elim (Bool-cases (leb_ℤ (pos 2147483647) (g r))) [
    | inl full ↦ full_at (g r) n full (selected g p n r rs true e a).0
    | inr free ↦ full_slot g p n rs (ground (arith, h, e, free)) (selected g p n r rs true e a).1
  ]
]

-- A collection with a row in the last slot of the column, a deleted one too, has no next slot: the
-- call ends in an internal error.
pub next_sort_order-overflow :
    {R : Type 0} (t : NamedTable R) (u : ℕ) (scope : Option (R → Bool)) (db : Db)
    → exists
        (λ r. is_in_collection t u scope r && leb_ℤ (pos 2147483647) (t.sort_order_of r))
        (t.table.rows db)
      ≡ true
    → next_sort_order t u scope db ≡ (err internal_error, db)
unfolding next_sort_order gets raise ◌>>=◌
next_sort_order-overflow t u scope db h = rw (full) refl
  where
    full :
        fits_int4 (
          successor
            (maximum (map t.sort_order_of (select (is_in_collection t u scope) (t.table.rows db)))))
        ≡ false
    full =
        full_slot t.sort_order_of (is_in_collection t u scope) _ (t.table.rows db) h
          (above_successor t.sort_order_of _ _ refl)
