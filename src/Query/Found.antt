-- ===== src/Query/Found.antt =====
-- What the generic reads find, and the generic writes on the store where they are made.
use expense_world_engine.Base.{ℕ, ◌≡◌, ◌∙◌, Bool, some, find}
use expense_world_engine.Schema.{Db, Resource}
use expense_world_engine.Schema.Tables.{Table}
use expense_world_engine.Exec.{◌>>=◌, not_found}
use expense_world_engine.Exec.Outcome.{
  Triple, Triple-bind, Triple-gets, Triple-or_raise, Triple-post,
}
use expense_world_engine.Query.{
  is_resolved, fetch_owned_row, fetch_owned_row_or_404, update_rows, update_returning,
}

module _ {R : Type 0} (t : Table R) {P E : Db → Type 0} where
  pub fetch_owned_row_or_404-Triple :
      ((db : Db) → P db → E db)
      → (i u : ℕ) (noun : Resource) (gone : Bool)
      → Triple P
          (fetch_owned_row_or_404 t i u noun gone)
          (λ row db. P db × (find (is_resolved t i u gone) (t.rows db) ≡ some row))
          E
  unfolding fetch_owned_row_or_404 fetch_owned_row
  fetch_owned_row_or_404-Triple safe i u noun gone = Triple-bind (Triple-gets safe _) λ o.
      Triple-post (λ row db h. (h.0.0, h.0.1 ∙ h.1))
        (Triple-or_raise (λ db h. safe db h.0) o (not_found noun))

  pub update_returning-Triple :
      (p : R → Bool) (f : ℕ → R → R)
      → ((db : Db) → P db → E (update_rows t p f db))
      → Triple P (update_returning t p f) (λ _. E) E
  unfolding update_returning ◌>>=◌
  update_returning-Triple p f h = record { run = λ db k. h db k }
