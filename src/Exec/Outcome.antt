-- ===== src/Exec/Outcome.antt =====
-- Triples for service functions: what holds where one returns, and what holds where it raises.
use expense_world_engine.Base.{
  ◌≡◌, refl, Bool, true, false, Option, none, some, List, [], ◌∷◌, if◌then◌else◌,
}
use expense_world_engine.Schema.{Db}
use expense_world_engine.Exec.{
  Exec, Result, ok, err, AppError, Msg, Field, pure, raise, gets, lift, modify, ◌>>=◌, raise_if,
  or_raise, raise_errors,
}
use expense_world_engine.Exec.Keeps.{Keeps}

-- `Q` holds of what is returned and the store it leaves, `E` of the store that a raise leaves.
abbrev pub Outcome : {A : Type 0} → (A → Db → Type 0) → (Db → Type 0) → Result A × Db → Type 0
Outcome Q E (ok a, db) = Q a db
Outcome Q E (err e, db) = E db

-- From `P`, `m` returns with `Q` or raises with `E`.
pub record Triple {A : Type 0} (P : Db → Type 0) (m : Exec A) (Q : A → Db → Type 0)
    (E : Db → Type 0) : Type 0 where
  pub run : (db : Db) → P db → Outcome Q E (m db)

module _ {A : Type 0} (E : Db → Type 0) where
  state-Outcome : (r : Result A × Db) → E r.1 → Outcome (λ (_ : A). E) E r
  state-Outcome (ok a, db) h = h
  state-Outcome (err e, db) h = h

  to_state : (r : Result A × Db) → Outcome (λ (_ : A). E) E r → E r.1
  to_state (ok a, db) h = h
  to_state (err e, db) h = h

  weaken-Outcome :
      (Q : A → Db → Type 0) (E' : Db → Type 0) (r : Result A × Db)
      → ((db : Db) → E db → E' db)
      → Outcome Q E r
      → Outcome Q E' r
  weaken-Outcome Q E' (ok a, db) w h = h
  weaken-Outcome Q E' (err e, db) w h = w db h

module _ {A : Type 0} {P : Db → Type 0} where
  -- An invariant holds either way.
  pub Triple-Keeps : {m : Exec A} → Keeps P m → Triple P m (λ _. P) P
  Triple-Keeps {m} k = record { run = λ db h. state-Outcome P (m db) (k.at db h) }

  pub Keeps-Triple : {m : Exec A} → Triple P m (λ _. P) P → Keeps P m
  Keeps-Triple {m} t = record { at = λ db h. to_state P (m db) (t.run db h) }

module _ {A : Type 0} {P E : Db → Type 0} {Q : A → Db → Type 0} {m : Exec A} where
  pub Triple-weaken :
      {E' : Db → Type 0} → ((db : Db) → E db → E' db) → Triple P m Q E → Triple P m Q E'
  Triple-weaken {E'} w t = record { run = λ db h. weaken-Outcome E Q E' (m db) w (t.run db h) }

  pub Triple-pre :
      {P' : Db → Type 0} → ((db : Db) → P' db → P db) → Triple P m Q E → Triple P' m Q E
  Triple-pre w t = record { run = λ db h. t.run db (w db h) }

module _ {A B : Type 0} where
  continue-Triple :
      (E : Db → Type 0) (Q : A → Db → Type 0) (R : B → Db → Type 0) (r : Result A × Db)
      (f : A → Exec B)
      → Outcome Q E r
      → ((a : A) → Triple (Q a) (f a) R E)
      → Outcome R E ((lift r.0 >>= f) r.1)
  unfolding ◌>>=◌
  continue-Triple E Q R (ok a, db) f h k = (k a).run db h
  continue-Triple E Q R (err e, db) f h k = h

module _ {A B : Type 0} {P E : Db → Type 0} {Q : A → Db → Type 0} {R : B → Db → Type 0} where
  pub Triple-bind :
      {m : Exec A} {f : A → Exec B}
      → Triple P m Q E
      → ((a : A) → Triple (Q a) (f a) R E)
      → Triple P (m >>= f) R E
  unfolding ◌>>=◌
  Triple-bind {m} {f} t k = record { run = λ db h. continue-Triple E Q R (m db) f (t.run db h) k }

module _ {P E : Db → Type 0} (safe : (db : Db) → P db → E db) where
  pub Triple-pure : {A : Type 0} (a : A) → Triple P (pure a) (λ b db. P db × (b ≡ a)) E
  unfolding pure
  Triple-pure a = record { run = λ db h. (h, refl) }

  pub Triple-gets : {A : Type 0} (f : Db → A) → Triple P (gets f) (λ a db. P db × (f db ≡ a)) E
  unfolding gets
  Triple-gets f = record { run = λ db h. (h, refl) }

  pub Triple-or_raise :
      {A : Type 0} (o : Option A) (e : AppError)
      → Triple P (or_raise o e) (λ a db. P db × (o ≡ some a)) E
  unfolding pure raise
  Triple-or_raise none e = record { run = λ db h. safe db h }
  Triple-or_raise (some a) e = record { run = λ db h. (h, refl) }

  pub Triple-raise_if :
      (b : Bool) (e : AppError) → Triple P (raise_if b e) (λ _ db. P db × (b ≡ false)) E
  unfolding pure raise
  Triple-raise_if true e = record { run = λ db h. safe db h }
  Triple-raise_if false e = record { run = λ db h. (h, refl) }

  pub Triple-raise_errors :
      (m : Msg) (es : List (Field × Msg))
      → Triple P (raise_errors m es) (λ _ db. P db × (es ≡ [])) E
  unfolding pure raise
  Triple-raise_errors m [] = record { run = λ db h. (h, refl) }
  Triple-raise_errors m (x ∷ es) = record { run = λ db h. safe db h }

  -- What does not touch the store.
  pub Triple-read : {A : Type 0} {m : Exec A} → Keeps P m → Triple P m (λ _. P) E
  Triple-read k = Triple-weaken safe (Triple-Keeps k)

module _ {A : Type 0} where
  post-Outcome :
      (E : Db → Type 0) (Q R : A → Db → Type 0) (r : Result A × Db)
      → ((a : A) (db : Db) → Q a db → R a db)
      → Outcome Q E r
      → Outcome R E r
  post-Outcome E Q R (ok a, db) w h = w a db h
  post-Outcome E Q R (err e, db) w h = h

module _ {A : Type 0} {P E : Db → Type 0} {Q R : A → Db → Type 0} where
  pub Triple-post :
      {m : Exec A} → ((a : A) (db : Db) → Q a db → R a db) → Triple P m Q E → Triple P m R E
  Triple-post {m} w t = record { run = λ db h. post-Outcome E Q R (m db) w (t.run db h) }

-- A fact that is not about the store holds throughout.
module _ {A : Type 0} where
  frame-Outcome :
      (E : Db → Type 0) (Q : A → Db → Type 0) (F : Type 0) (r : Result A × Db)
      → F
      → Outcome Q E r
      → Outcome (λ a db. Q a db × F) E r
  frame-Outcome E Q F (ok a, db) f h = (h, f)
  frame-Outcome E Q F (err e, db) f h = h

module _ {A : Type 0} {P E : Db → Type 0} {Q : A → Db → Type 0} where
  pub Triple-frame :
      {m : Exec A} {F : Type 0} → Triple P m Q E → Triple (λ db. P db × F) m (λ a db. Q a db × F) E
  Triple-frame {m} {F} t = record { run = λ db h. frame-Outcome E Q F (m db) h.1 (t.run db h.0) }

module _ {A : Type 0} {E : Db → Type 0} {Q : A → Db → Type 0} where
  pub Triple-exists :
      {X : Type 0} {P' : X → Db → Type 0} {m : Exec A}
      → ((x : X) → Triple (P' x) m Q E)
      → Triple (λ db. (x : X) × P' x db) m Q E
  Triple-exists t = record { run = λ db h. (t h.0).run db h.1 }

module _ {A : Type 0} {P E : Db → Type 0} {Q : A → Db → Type 0} where
  -- A fact that is not about the store is known from here on.
  pub Triple-fact : {F : Type 0} {m : Exec A} → (F → Triple P m Q E) → Triple (λ db. P db × F) m Q E
  Triple-fact t = record { run = λ db h. (t h.1).run db h.0 }

  -- What a run that returned gives.
  pub Triple-result :
      {m : Exec A}
      → Triple P m Q E
      → (db : Db) (a : A) (after : Db) → P db
      → m db ≡ (ok a, after)
      → Q a after
  Triple-result {m} t db a after h e = rw e at (t.run db h)

module _ {P E : Db → Type 0} where
  -- A write, by what it makes of the store.
  pub Triple-modify : (f : Db → Db) → ((db : Db) → P db → E (f db)) → Triple P (modify f) (λ _. E) E
  unfolding modify
  Triple-modify f h = record { run = h }

module _ {A : Type 0} {P E : Db → Type 0} {Q : A → Db → Type 0} where
  pub Triple-if :
      (b : Bool) {m n : Exec A}
      → Triple P m Q E
      → Triple P n Q E
      → Triple P (if b then m else n) Q E
  Triple-if true tm tn = tm
  Triple-if false tm tn = tn

module _ {A : Type 0} where
  with-Outcome :
      (E : Db → Type 0) (Q : A → Db → Type 0) (S : Db → Type 0) (r : Result A × Db)
      → Outcome Q E r
      → S r.1
      → Outcome (λ a db. Q a db × S db) E r
  with-Outcome E Q S (ok a, db) h k = (h, k)
  with-Outcome E Q S (err e, db) h k = h

module _ {A : Type 0} {P E : Db → Type 0} {Q : A → Db → Type 0} where
  -- An invariant beside a triple
  pub Triple-with :
      {S : Db → Type 0} {m : Exec A}
      → Triple P m Q E
      → Keeps S m
      → Triple (λ db. P db × S db) m (λ a db. Q a db × S db) E
  Triple-with {S} {m} t k = record {
    run = λ db h. with-Outcome E Q S (m db) (t.run db h.0) (k.at db h.1);
  }
