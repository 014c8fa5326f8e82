-- ===== src/Query/Owned.antt =====
-- What an invariant owes for the helpers of app/helpers/query_builder.py.
use expense_world_engine.Base.{ℕ, Bool}
use expense_world_engine.Schema.{Db, Resource}
use expense_world_engine.Schema.Tables.{Table}
use expense_world_engine.Exec.{modify}
use expense_world_engine.Exec.Keeps.{Keeps, keeps_rules}
use expense_world_engine.Query.{
  fetch_owned_row, fetch_owned_row_or_404, update_rows, update_returning,
}

module _ {P : Db → Type 0} {R : Type 0} (t : Table R) where
  pub fetch_owned_row_or_404-Keeps :
      (i u : ℕ) (noun : Resource) (gone : Bool) → Keeps P (fetch_owned_row_or_404 t i u noun gone)
  unfolding fetch_owned_row_or_404 fetch_owned_row
  fetch_owned_row_or_404-Keeps i u noun gone = search keeps_rules

  pub update_returning-Keeps :
      (p : R → Bool) (f : ℕ → R → R)
      → Keeps P (modify (update_rows t p f))
      → Keeps P (update_returning t p f)
  unfolding update_returning
  update_returning-Keeps p f k = search keeps_rules
