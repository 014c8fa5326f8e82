-- ===== src/Text/Strip.antt =====
-- Python's `str.strip`, by what it takes away and what it leaves.
use mathlib.Core.List.{reverse-append, reverse-reverse}
use expense_world_engine.Base.{
  ◌≡◌, refl, sym, subst, ap, ◌∙◌, Bool, true, not, Bool-cases, inl, inr, arith, [], ◌∷◌, ◌++◌,
  reverse, All,
}
use expense_world_engine.Schema.{Text}
use expense_world_engine.Text.{is_space, lstrip, strip}

-- The text does not begin with a space.
unfoldable pub is_trimmed : Text → Bool
is_trimmed [] = true
is_trimmed (c ∷ t) = not (is_space c)

lstrip-is_trimmed : (t : Text) → is_trimmed (lstrip t) ≡ true
unfolding lstrip is_trimmed
lstrip-is_trimmed [] = refl
lstrip-is_trimmed (c ∷ t) = elim (Bool-cases (is_space c)) [
  | inl e ↦ rw (e, lstrip) (lstrip-is_trimmed t)
  | inr e ↦ rw (e, lstrip) (rw e refl)
]

lstrip_trimmed : (t : Text) → is_trimmed t ≡ true → lstrip t ≡ t
unfolding lstrip is_trimmed
lstrip_trimmed [] h = refl
lstrip_trimmed (c ∷ t) h = elim (Bool-cases (is_space c)) [
  | inl e ↦ absurd (ground (arith, e, h))
  | inr e ↦ rw (e, lstrip) refl
]

is_trimmed-prefix : (s t : Text) → is_trimmed (s ++ t) ≡ true → is_trimmed s ≡ true
unfolding is_trimmed
is_trimmed-prefix [] t h = refl
is_trimmed-prefix (c ∷ s) t h = h

unfoldable pub AllSpaces : Text → Type 0
AllSpaces t = All (λ c. is_space c ≡ true) t

-- What `lstrip` takes away is spaces before what it leaves.
lstrip-suffix : (t : Text) → (gone : Text) × ((t ≡ gone ++ lstrip t) × AllSpaces gone)
unfolding lstrip AllSpaces
lstrip-suffix [] = ([], (refl, tt))
lstrip-suffix (c ∷ t) = elim (Bool-cases (is_space c)) [
  | inl e ↦
      let rest = lstrip-suffix t in
      (c ∷ rest.0, (rw (e, lstrip) (ap (λ l. c ∷ l) rest.1.0), (e, rest.1.1)))
  | inr e ↦ ([], (rw (e, lstrip) refl, tt))
]

-- The two ends are trimmed.
strip-is_trimmed : (t : Text) → is_trimmed (strip t) ≡ true
unfolding strip
strip-is_trimmed t =
    let front = lstrip t in
    let cut = lstrip-suffix (reverse front) in
    is_trimmed-prefix (reverse (lstrip (reverse front))) (reverse cut.0) (
      subst (λ s. is_trimmed s ≡ true)
        (sym (reverse-reverse front)
          ∙ ap reverse cut.1.0
          ∙ reverse-append cut.0 (lstrip (reverse front)))
        (lstrip-is_trimmed t))

pub AllSpaces-append : (s t : Text) → AllSpaces s → AllSpaces t → AllSpaces (s ++ t)
unfolding AllSpaces
AllSpaces-append [] t a b = b
AllSpaces-append (c ∷ s) t a b = (a.0, AllSpaces-append s t a.1 b)

AllSpaces-reverse : (t : Text) → AllSpaces t → AllSpaces (reverse t)
unfolding AllSpaces
AllSpaces-reverse [] a = tt
AllSpaces-reverse (c ∷ t) a =
    subst AllSpaces (sym (reverse-append (c ∷ []) t))
      (AllSpaces-append (reverse t) (c ∷ []) (AllSpaces-reverse t a.1) (a.0, tt))

-- The text is `s` between spaces, and `s` has none at its ends.
pub record IsStripped (t s : Text) : Type 0 where
  pub front : Text
  pub back : Text
  pub parts : t ≡ front ++ (s ++ back)
  pub front_spaces : AllSpaces front
  pub back_spaces : AllSpaces back
  pub trimmed_front : is_trimmed s ≡ true
  pub trimmed_back : is_trimmed (reverse s) ≡ true

pub strip-IsStripped : (t : Text) → IsStripped t (strip t)
unfolding strip
strip-IsStripped t =
    let first = lstrip-suffix t in
    let cut = lstrip-suffix (reverse (lstrip t)) in
    let back = lstrip (reverse (lstrip t)) in
    record {
      front = first.0;
      back = reverse cut.0;
      parts =
          first.1.0
          ∙ ap (λ l. first.0 ++ l)
              (sym (reverse-reverse (lstrip t)) ∙ ap reverse cut.1.0 ∙ reverse-append cut.0 back);
      front_spaces = first.1.1;
      back_spaces = AllSpaces-reverse cut.0 cut.1.1;
      trimmed_front = strip-is_trimmed t;
      trimmed_back =
          subst (λ l. is_trimmed l ≡ true) (sym (reverse-reverse back))
            (lstrip-is_trimmed (reverse (lstrip t)));
    }
