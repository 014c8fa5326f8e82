-- ===== src/Exec/Keeps.antt =====
-- Invariants of service functions: one rule for each way to build one.
use expense_world_engine.Base.{Bool, true, false, Option, none, some, List, [], ◌∷◌, if◌then◌else◌}
use expense_world_engine.Schema.{Db}
use expense_world_engine.Exec.{
  Exec, Result, ok, err, AppError, Msg, Field, pure, raise, gets, lift, modify, ◌>>=◌, ◌>>◌,
  raise_if, or_raise, raise_errors, for_some,
}

-- `m` keeps `P`, whether it returns or raises.
pub record Keeps {A : Type 0} (P : Db → Type 0) (m : Exec A) : Type 0 where
  pub at : (db : Db) → P db → P (m db).1

module _ {A : Type 0} {P : Db → Type 0} where
  pub Keeps-pure : (a : A) → Keeps P (pure a)
  unfolding pure
  Keeps-pure a = record { at = λ db h. h }

  pub Keeps-raise : (e : AppError) → Keeps P (raise {A = A} e)
  unfolding raise
  Keeps-raise e = record { at = λ db h. h }

  pub Keeps-gets : (f : Db → A) → Keeps P (gets f)
  unfolding gets
  Keeps-gets f = record { at = λ db h. h }

  pub Keeps-lift : (r : Result A) → Keeps P (lift r)
  unfolding lift
  Keeps-lift r = record { at = λ db h. h }

  pub Keeps-if : (b : Bool) (m n : Exec A) → Keeps P m → Keeps P n → Keeps P (if b then m else n)
  Keeps-if true m n km kn = km
  Keeps-if false m n km kn = kn

module _ {A B : Type 0} {P : Db → Type 0} where
  continue-Keeps :
      (r : Result A) (f : A → Exec B) (db : Db)
      → ((a : A) → Keeps P (f a))
      → P db
      → P ((lift r >>= f) db).1
  unfolding ◌>>=◌
  continue-Keeps (ok a) f db kf h = (kf a).at db h
  continue-Keeps (err e) f db kf h = h

  pub Keeps-bind :
      (m : Exec A) (f : A → Exec B) → Keeps P m → ((a : A) → Keeps P (f a)) → Keeps P (m >>= f)
  unfolding ◌>>=◌
  Keeps-bind m f km kf = record {
    at = λ db h. let (r, db') = m db in continue-Keeps r f db' kf (km.at db h);
  }

  pub Keeps-seq : (m : Exec A) (n : Exec B) → Keeps P m → Keeps P n → Keeps P (m >> n)
  Keeps-seq m n km kn = Keeps-bind m (λ _. n) km (λ _. kn)

module _ {P : Db → Type 0} where
  pub Keeps-raise_if : (b : Bool) (e : AppError) → Keeps P (raise_if b e)
  Keeps-raise_if true e = Keeps-raise e
  Keeps-raise_if false e = Keeps-pure tt

  pub Keeps-or_raise : {A : Type 0} (o : Option A) (e : AppError) → Keeps P (or_raise o e)
  Keeps-or_raise none e = Keeps-raise e
  Keeps-or_raise (some a) e = Keeps-pure a

  pub Keeps-for_some :
      {A B : Type 0} (o : Option A) (n : Exec B) (f : A → Exec B)
      → Keeps P n
      → ((a : A) → Keeps P (f a))
      → Keeps P (for_some o n f)
  Keeps-for_some none n f kn kf = kn
  Keeps-for_some (some a) n f kn kf = kf a

  pub Keeps-raise_errors : (m : Msg) (es : List (Field × Msg)) → Keeps P (raise_errors m es)
  Keeps-raise_errors m [] = Keeps-pure tt
  Keeps-raise_errors m (e ∷ es) = Keeps-raise _

  pub Keeps-modify : (f : Db → Db) → ((db : Db) → P db → P (f db)) → Keeps P (modify f)
  unfolding modify
  Keeps-modify f h = record { at = h }

pub ruleset keeps_rules = (
  Keeps-pure, Keeps-raise, Keeps-gets, Keeps-lift, Keeps-if, Keeps-bind, Keeps-seq, Keeps-raise_if,
  Keeps-or_raise, Keeps-raise_errors, Keeps-for_some,
)
