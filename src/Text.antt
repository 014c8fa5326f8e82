-- ===== src/Text.antt =====
-- Names and titles: `clean_name` and `normalize_name` of app/helpers/validation.py over Python's
-- `str.strip`, and the comparisons of texts.
pub mod Strip
use expense_world_engine.Base.{
  ℕ, ◌≡◌, refl, Bool, true, false, ◌&&◌, ◌||◌, Option, none, some, [], ◌∷◌, reverse, arith, ltb,
  leb, ◌==◌, if◌then◌else◌,
}
use expense_world_engine.Schema.{Text}

-- `str.isspace` of a code point, which `str.strip` removes
abbrev pub is_space : ℕ → Bool
is_space c =
    (leb 9 c && leb c 13)
    || (leb 28 c && leb c 32)
    || (c == 133)
    || (c == 160)
    || (c == 5760)
    || (leb 8192 c && leb c 8202)
    || (c == 8232)
    || (c == 8233)
    || (c == 8239)
    || (c == 8287)
    || (c == 12288)

unfoldable pub lstrip : Text → Text
lstrip [] = []
lstrip (c ∷ t) = if is_space c then lstrip t else c ∷ t

unfoldable pub strip : Text → Text
unfolding lstrip
strip t = reverse (lstrip (reverse (lstrip t)))

abbrev pub none_if_empty : Text → Option Text
none_if_empty [] = none
none_if_empty (c ∷ t) = some (c ∷ t)

-- `None` or whitespace-only becomes `None`
unfoldable pub clean_name : Option Text → Option Text
unfolding strip
clean_name none = none
clean_name (some t) = none_if_empty (strip t)

-- `==` on strings
unfoldable pub same_text : Text → Text → Bool
same_text [] [] = true
same_text (c ∷ t) (d ∷ u) = (c == d) && same_text t u
same_text _ _ = false

pub same_text_eq : (t u : Text) → same_text t u ≡ true → t ≡ u
unfolding same_text
same_text_eq [] [] h = refl
same_text_eq [] (d ∷ u) h = absurd (ground (arith, h))
same_text_eq (c ∷ t) [] h = absurd (ground (arith, h))
same_text_eq (c ∷ t) (d ∷ u) h = ground (arith, h, same_text_eq t u)

pub same_text_refl : (t : Text) → same_text t t ≡ true
unfolding same_text
same_text_refl [] = refl
same_text_refl (c ∷ t) = ground (arith, same_text_refl t)

-- The order of texts by their characters, and of arrays by their elements
unfoldable pub precedes : Text → Text → Bool
precedes [] [] = false
precedes [] (b ∷ m) = true
precedes (a ∷ l) [] = false
precedes (a ∷ l) (b ∷ m) = ltb a b || (a == b && precedes l m)
