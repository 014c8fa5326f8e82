-- ===== src/Validation/Cleaned.antt =====
-- `normalize_name` of app/helpers/validation.py, on both of its branches.
use expense_world_engine.Base.{◌≡◌, ◌≢◌, refl, sym, subst, arith, [], ◌∷◌}
use expense_world_engine.Schema.{Text, Db}
use expense_world_engine.Exec.{
  Result, ok, err, Field, not_empty, validation_failed, validation_error, or_raise, pure, raise,
}
use expense_world_engine.Text.{clean_name, none_if_empty}
use expense_world_engine.Text.Strip.{AllSpaces, AllSpaces-append, IsStripped, strip-IsStripped}
use expense_world_engine.Validation.{normalize_name}

-- What a call may give for a text: the stripped text, which is not empty, or the error of the field
-- for a text of spaces only. The database is as before.
abbrev pub IsCleaned : Text → Field → Db → Result Text × Db → Type 0
IsCleaned t f db (ok s, after) = IsStripped t s × ((s ≢ []) × (after ≡ db))
IsCleaned t f db (err e, after) =
    AllSpaces t × ((e ≡ validation_error validation_failed ((f, not_empty) ∷ [])) × (after ≡ db))

cleaned :
    (t s : Text) (f : Field) (db : Db)
    → IsStripped t s
    → IsCleaned t f db
        (or_raise (none_if_empty s) (validation_error validation_failed ((f, not_empty) ∷ [])) db)
unfolding pure raise
cleaned t [] f db h = (
  subst AllSpaces (sym h.parts) (AllSpaces-append h.front h.back h.front_spaces h.back_spaces),
  (refl, refl),
)
cleaned t (c ∷ s) f db h = (h, ((λ e. ground (arith, e)), refl))

-- A name comes back without the spaces at its ends, and with nothing else taken away, and is then
-- not empty; or it was spaces only, and the error names the field. Nothing is written.
pub normalize_name-IsCleaned :
    (t : Text) (f : Field) (db : Db) → IsCleaned t f db (normalize_name t f db)
unfolding normalize_name clean_name
normalize_name-IsCleaned t f db = cleaned t _ f db (strip-IsStripped t)
