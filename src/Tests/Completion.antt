-- ===== src/Tests/Completion.antt =====
-- A completion on the small database.
use expense_world_engine.Base.{◌≡◌, refl, [], ◌∷◌, find, exists, select, update_where}
use expense_world_engine.Base.Int.{pos, ◌+ℤ◌, ◌-ℤ◌}
use expense_world_engine.Base.Sums.{sum_by, IsUnique}
use expense_world_engine.Schema.{Db, Reconciliation, ReconciliationResponse, draft}
use expense_world_engine.Exec.{Result, ok, pure, raise, gets, modify, ◌>>=◌}
use expense_world_engine.Query.{update_rows, write_activity_log}
use expense_world_engine.Reconciliations.{
  assigned_cents, difference_cents, fetch_reconciliation, fetch_or_404, flip_status,
  transition_status, complete_reconciliation,
}
use expense_world_engine.Reconciliations.Sealed.{IsSealed}
use expense_world_engine.Calls.Sealed.Completes
use expense_world_engine.Calls.Sealed.Flips.{assigned_parts}
use expense_world_engine.Tests.Data.{books, books-IsUnique, august}

-- The reconciliation is still open.
abbrev open_books : Db
open_books = record books { reconciliations = record august { status = draft } ∷ [] }

open_books-IsUnique : IsUnique (λ (r : Reconciliation). r.id) open_books.reconciliations
unfolding exists
open_books-IsUnique = (refl, tt)

abbrev completion : Result ReconciliationResponse × Db
completion = complete_reconciliation 1 50 open_books

-- The difference of 7.00 - 10.00 and the assigned -3.00 is zero.
abbrev completion_response : ReconciliationResponse
completion_response = record {
  row = record august { updated_at = 10; version = 3 };
  difference_cents = pos 0;
}

completion_runs : complete_reconciliation 1 50 open_books ≡ (ok completion_response, completion.1)
unfolding complete_reconciliation transition_status flip_status fetch_or_404 fetch_reconciliation
    difference_cents assigned_cents sum_by select find exists update_where update_rows
    write_activity_log ◌>>=◌ pure raise gets modify ◌+ℤ◌ ◌-ℤ◌
completion_runs = refl

complete_reconciliation-IsSealed_example :
    IsSealed 50 1 (pos 1000) (pos 700) (assigned_parts 50 1 open_books) completion.1
complete_reconciliation-IsSealed_example =
    Completes.complete_reconciliation-IsSealed 50 1 open_books books-IsUnique open_books-IsUnique
      completion_response completion.1 completion_runs
