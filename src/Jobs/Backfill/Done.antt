-- ===== src/Jobs/Backfill/Done.antt =====
-- The count by which app/jobs/backfill_exchange_rates.py takes a day as done, for targets that are
-- named once each.
use expense_world_engine.Base.{
  ℕ, suc, ◌≡◌, ◌≤◌, refl, sym, ap, subst, ◌∙◌, Bool, true, false, not, ◌||◌, List, [], ◌∷◌, map,
  select, exists, length, Bool-cases, inl, inr, arith, if◌then◌else◌,
}
use expense_world_engine.Schema.{Text, ExchangeRate}
use expense_world_engine.Text.{same_text, same_text_eq, same_text_refl}
use expense_world_engine.HomeBalance.{distinct}
use expense_world_engine.Jobs.{is_rate_of}
use expense_world_engine.Jobs.Backfill.{is_one_of, is_done}

abbrev has : Text → List Text → Bool
has t l = exists (same_text t) l

-- Each text stands once.
abbrev pub HasNoRepeat : List Text → Type 0
HasNoRepeat [] = Unit
HasNoRepeat (t ∷ l) = (exists (same_text t) l ≡ false) × HasNoRepeat l

distinct-HasNoRepeat : (l : List Text) → HasNoRepeat (distinct l)
unfolding distinct
distinct-HasNoRepeat [] = tt
distinct-HasNoRepeat (t ∷ l) = elim (Bool-cases (has t (distinct l))) [
  | inl e ↦ rw e (distinct-HasNoRepeat l)
  | inr e ↦ rw e (e, distinct-HasNoRepeat l)
]

same_as : (t b : Text) (l : List Text) → same_text t b ≡ true → has b l ≡ true → has t l ≡ true
same_as t b l e h = subst (λ x. has x l ≡ true) (sym (same_text_eq t b e)) h

has-distinct : (t : Text) (l : List Text) → has t (distinct l) ≡ has t l
unfolding distinct exists
has-distinct t [] = refl
has-distinct t (b ∷ l) = elim (Bool-cases (has b (distinct l))) [
  | inl e ↦ elim (Bool-cases (same_text t b)) [
    | inl k ↦ rw e (same_as t b (distinct l) k e ∙ rw k refl)
    | inr k ↦ rw e (has-distinct t l ∙ rw k refl)
  ]
  | inr e ↦ rw e (ap (λ x. same_text t b || x) (has-distinct t l))
]

unfoldable drop_text : Text → List Text → List Text
drop_text a [] = []
drop_text a (b ∷ l) = let rest = drop_text a l in if same_text a b then l else b ∷ rest

length-drop_text :
    (a : Text) (l : List Text) → has a l ≡ true → length l ≡ suc (length (drop_text a l))
unfolding drop_text exists length
length-drop_text a [] h = absurd (ground (arith, h))
length-drop_text a (b ∷ l) h = elim (Bool-cases (same_text a b)) [
  | inl e ↦ rw e refl
  | inr e ↦ rw e (ap suc (length-drop_text a l (ground (arith, h, e))))
]

has-drop_text :
    (a t : Text) (l : List Text)
    → same_text a t ≡ false
    → has t l ≡ true
    → has t (drop_text a l) ≡ true
unfolding drop_text exists
has-drop_text a t [] d h = absurd (ground (arith, h))
has-drop_text a t (b ∷ l) d h = elim (Bool-cases (same_text a b)) [
  | inl e ↦ rw e (ground (arith, h, other e))
  | inr e ↦ rw e (elim (Bool-cases (same_text t b)) [
    | inl k ↦ rw k refl
    | inr k ↦ rw k (has-drop_text a t l d (ground (arith, h, k)))
  ])
]
  where
    clash : a ≡ t → ⊥
    clash k =
        let here = subst (λ x. same_text a x ≡ true) k (same_text_refl a) in ground (arith, here, d)

    other : same_text a b ≡ true → same_text t b ≡ false
    other e = elim (Bool-cases (same_text t b)) [
      | inl k ↦ absurd (clash (same_text_eq a b e ∙ sym (same_text_eq t b k)))
      | inr k ↦ k
    ]

-- A list without repeats is no longer than one that has all of it.
length-has :
    (l m : List Text)
    → HasNoRepeat l
    → ((t : Text) → has t l ≡ true → has t m ≡ true)
    → length l ≤ length m
unfolding length exists
length-has [] m d h = omega arith
length-has (a ∷ l) m d h =
    let shorter =
      length-has l (drop_text a m) d.1
        (λ t e. has-drop_text a t m (apart t e) (h t (ground (arith, e)))) in
    let one = length-drop_text a m (h a (rw (same_text_refl a) refl)) in omega (arith, shorter, one)
  where
    apart : (t : Text) → has t l ≡ true → same_text a t ≡ false
    apart t e = elim (Bool-cases (same_text a t)) [
      | inl k ↦ absurd (let both = same_as a t l k e in ground (arith, both, d.0))
      | inr k ↦ k
    ]

module _ (targets : List Text) (day : ℕ) where
  abbrev named : List ExchangeRate → List Text
  named table = map (λ (r : ExchangeRate). r.target_currency) (select (is_one_of targets day) table)

  named-targets :
      (t : Text) (table : List ExchangeRate) → has t (named table) ≡ true → has t targets ≡ true
  unfolding exists select
  named-targets t [] h = absurd (ground (arith, h))
  named-targets t (r ∷ table) h = elim (Bool-cases (is_one_of targets day r)) [
    | inl e ↦ elim (Bool-cases (same_text t r.target_currency)) [
      | inl k ↦ same_as t r.target_currency targets k (ground (arith, e))
      | inr k ↦ named-targets t table (rw k at (rw e at h))
    ]
    | inr e ↦ named-targets t table (rw e at h)
  ]

  targets-named :
      (t : Text) (table : List ExchangeRate)
      → has t targets ≡ true
      → exists (is_rate_of t day) table ≡ true
      → has t (named table) ≡ true
  unfolding exists select
  targets-named t [] e h = absurd (ground (arith, h))
  targets-named t (r ∷ table) e h = elim (Bool-cases (is_rate_of t day r)) [
    | inl k ↦ rw (chosen k) (rw (same_target k) refl)
    | inr k ↦ elim (Bool-cases (is_one_of targets day r)) [
      | inl o ↦ rw o (later (same_text t r.target_currency) (targets-named t table e (rw k at h)))
      | inr o ↦ rw o (targets-named t table e (rw k at h))
    ]
  ]
    where
      same_target : is_rate_of t day r ≡ true → same_text t r.target_currency ≡ true
      same_target k =
          subst (λ x. same_text t x ≡ true)
            (sym (same_text_eq r.target_currency t (ground (arith, k)))) (same_text_refl t)

      chosen : is_rate_of t day r ≡ true → is_one_of targets day r ≡ true
      chosen k =
          let named =
            subst (λ x. has x targets ≡ true)
              (sym (same_text_eq r.target_currency t (ground (arith, k)))) e in
          ground (arith, k, named)

      later : (b : Bool) → has t (named table) ≡ true → b || has t (named table) ≡ true
      later b n = ground (arith, n)

-- The target has no rate on the day.
abbrev pub lacks_rate : List ExchangeRate → ℕ → Text → Bool
lacks_rate table day t = not (exists (is_rate_of t day) table)

found_rate :
    (table : List ExchangeRate) (day : ℕ) (targets : List Text) (t : Text)
    → exists (lacks_rate table day) targets ≡ false
    → has t targets ≡ true
    → exists (is_rate_of t day) table ≡ true
unfolding exists
found_rate table day [] t n e = absurd (ground (arith, e))
found_rate table day (b ∷ targets) t n e = elim (Bool-cases (same_text t b)) [
  | inl k ↦
      subst (λ x. exists (is_rate_of x day) table ≡ true) (sym (same_text_eq t b k))
        (ground (arith, n))
  | inr k ↦ found_rate table day targets t (ground (arith, n)) (ground (arith, e, k))
]

-- Of targets named once each, a day that is not done lacks one.
pub is_done-lacks_rate :
    (table : List ExchangeRate) (targets : List Text) (day : ℕ)
    → HasNoRepeat targets
    → is_done table targets day ≡ false
    → exists (lacks_rate table day) targets ≡ true
unfolding is_done
is_done-lacks_rate table targets day once open_day =
    elim (Bool-cases (exists (lacks_rate table day) targets)) [
      | inl e ↦ e
      | inr e ↦ absurd (counted e)
    ]
  where
    names : List Text
    names = distinct (named targets day table)

    counted : exists (lacks_rate table day) targets ≡ false → ⊥
    counted e =
        let fewer =
          length-has names targets (distinct-HasNoRepeat (named targets day table)) (λ t h.
            named-targets targets day t table
              (sym (has-distinct t (named targets day table)) ∙ h)) in
        let more = length-has targets names once (λ t h.
          has-distinct t (named targets day table)
          ∙ targets-named targets day t table h (found_rate table day targets t e h)) in
        ground (arith, fewer, more, open_day)
