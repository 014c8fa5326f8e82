-- ===== src/Exec.antt =====
-- A service function: it runs in a database transaction that its caller owns, and returns or raises
-- an `AppError` (app/errors.py). What was written before a raise stays written until the caller
-- rolls the transaction back, so the state comes back beside an error too.
mod Errors
pub mod Keeps
pub mod Outcome
pub use Errors.*
use expense_world_engine.Base.{◌≡◌, Bool, Option, none, some, List, [], ◌∷◌, if◌then◌else◌}
use expense_world_engine.Schema.{Db}

abbrev pub Exec : Type 0 → Type 0
Exec A = Db → Result A × Db

module _ {A : Type 0} where
  unfoldable pub pure : A → Exec A
  pure a db = (ok a, db)

  unfoldable pub raise : AppError → Exec A
  raise e db = (err e, db)

  unfoldable pub gets : (Db → A) → Exec A
  gets f db = (ok (f db), db)

  unfoldable pub lift : Result A → Exec A
  lift r db = (r, db)

unfoldable pub modify : (Db → Db) → Exec Unit
modify f db = (ok tt, f db)

module _ {A B : Type 0} where
  abbrev continue : Result A → (A → Exec B) → Exec B
  continue (ok a) f db = f a db
  continue (err e) f db = (err e, db)

  infixl 10 ◌>>=◌ ◌>>◌
  unfoldable pub ◌>>=◌ : Exec A → (A → Exec B) → Exec B
  unfolding pure raise gets lift modify
  ◌>>=◌ m f db = let (r, db') = m db in continue r f db'

  abbrev pub ◌>>◌ : Exec A → Exec B → Exec B
  m >> n = m >>= λ _. n

-- `if test: raise e`
abbrev pub raise_if : Bool → AppError → Exec Unit
raise_if b e = if b then raise e else pure tt

-- `if row is None: raise e`
abbrev pub or_raise : {A : Type 0} → Option A → AppError → Exec A
or_raise none e = raise e
or_raise (some a) e = pure a

-- `if errors: raise validation_error(message, errors)`
abbrev pub raise_errors : Msg → List (Field × Msg) → Exec Unit
raise_errors m [] = pure tt
raise_errors m (e ∷ es) = raise (validation_error m (e ∷ es))

-- `n if o is None else f(o)`
abbrev pub for_some : {A B : Type 0} → Option A → Exec B → (A → Exec B) → Exec B
for_some none n f = n
for_some (some a) n f = f a
