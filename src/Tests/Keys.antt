-- ===== src/Tests/Keys.antt =====
-- The laws of the idempotency keys and of the calls on the small database.
use expense_world_engine.Base.{
  ℕ, ◌≡◌, ◌≢◌, refl, Bool, true, false, some, List, [], ◌∷◌, find, exists, select, arith, ap,
}
use expense_world_engine.Base.Int.{pos}
use expense_world_engine.Base.Rows.{view}
use expense_world_engine.Exec.{
  Exec, ok, err, pure, raise, gets, ◌>>=◌, conflict, already_exists, key_reused, not_replayable,
}
use expense_world_engine.Text.{same_text}
use expense_world_engine.Tenant.{SameTenant}
use expense_world_engine.Idempotency.{Store, fresh, replayed, run_idempotent, claim, store}
use expense_world_engine.Idempotency.History.{Write, run_all}
use expense_world_engine.Idempotency.History
use expense_world_engine.Reconciliations.{
  complete_reconciliation, transition_status, fetch_or_404, fetch_reconciliation, difference_cents,
}
use expense_world_engine.Reconciliations.Sealed.{IsSealed, LockedPart, locked_part}
use expense_world_engine.Query.{fetch_owned_row, fetch_owned_row_or_404}
use expense_world_engine.Ledger.Rows.{fetch_recon_status}
use expense_world_engine.Ledger.Remove.{delete_transaction, check_delete_lock}
use expense_world_engine.Calls.{Call, serve, serve_all}
use expense_world_engine.Calls.Tenant
use expense_world_engine.Calls.Audit.Returns
use expense_world_engine.Calls.Versions
use expense_world_engine.Calls.Sealed.Serve
use expense_world_engine.Tests.Data.{books, books-IsUnique, snack, august, dinner}

serve-SameTenant_example : SameTenant 2 books (serve 1 (Call.create_transaction snack) books).1
serve-SameTenant_example =
    Tenant.serve-SameTenant 1 2 (Call.create_transaction snack) books (λ e. ground (arith, e))

serve-IsAudited_example : Returns.IsAudited 1 books (serve 1 (Call.delete_transaction 101) books)
serve-IsAudited_example = Returns.serve-IsAudited 1 (Call.delete_transaction 101) books

abbrev pub august_rows : List LockedPart
august_rows = locked_part dinner ∷ []

pub august-IsSealed : IsSealed 50 1 (pos 1000) (pos 700) august_rows books
unfolding exists view select
august-IsSealed = record {
  unique = books-IsUnique;
  present = refl;
  sealed = (
    record {
      is_completed_row = λ _. refl;
      is_active_row = λ _. refl;
      beginning_kept = λ _. refl;
      ending_kept = λ _. refl;
    },
    tt,
  );
  assigned = refl;
}

abbrev attempts : List Call
attempts = Call.delete_transaction 100 ∷ Call.complete_reconciliation 50 ∷ []

abbrev is_revert : Call → Bool
is_revert (Call.revert_reconciliation i) = true
is_revert _ = false

delete_apart : Call.delete_transaction 100 ≢ Call.revert_reconciliation 50
delete_apart e = ground (arith, ap is_revert e)

complete_apart : Call.complete_reconciliation 50 ≢ Call.revert_reconciliation 50
complete_apart e = ground (arith, ap is_revert e)

serve_all-IsSealed_example :
    IsSealed 50 1 (pos 1000) (pos 700) august_rows (serve_all 1 attempts books)
serve_all-IsSealed_example =
    Serve.serve_all-IsSealed 50 1 (pos 1000) (pos 700) august_rows attempts books
      (delete_apart, (complete_apart, tt)) august-IsSealed

serve_all-difference_cents_example :
    difference_cents (serve_all 1 attempts books).transactions august
    ≡ difference_cents books.transactions august
unfolding serve_all serve find exists ◌>>=◌ pure raise gets delete_transaction
    fetch_owned_row_or_404 fetch_owned_row check_delete_lock fetch_recon_status
    complete_reconciliation transition_status fetch_or_404 fetch_reconciliation
serve_all-difference_cents_example =
    Serve.serve_all-difference_cents 50 1 (pos 1000) (pos 700) august_rows attempts books august
      august (delete_apart, (complete_apart, tt)) august-IsSealed refl refl

abbrev one : Exec ℕ
one = pure 1

abbrev failing : Exec ℕ
failing = raise (conflict already_exists)

abbrev empty : Store ℕ
empty = record { db = books; keys = [] }

abbrev used : Store ℕ
used = (run_idempotent 1 (some (7 ∷ [])) (some (9 ∷ [])) 201 one true empty).1

abbrev claimed : Store ℕ
claimed = (run_idempotent 1 (some (7 ∷ [])) (some (9 ∷ [])) 201 one false empty).1

first_runs :
    run_idempotent 1 (some (7 ∷ [])) (some (9 ∷ [])) 201 one true empty ≡ (ok (fresh 1), used)
unfolding run_idempotent pure claim find store
first_runs = refl

secret_runs :
    run_idempotent 1 (some (7 ∷ [])) (some (9 ∷ [])) 201 one false empty ≡ (ok (fresh 1), claimed)
unfolding run_idempotent pure claim find store
secret_runs = refl

-- Another user's write in between.
abbrev between : List (Write ℕ)
between =
    record {
      user_id = 2;
      key = some (7 ∷ []);
      fingerprint = some (8 ∷ []);
      status_code = 200;
      work = one;
      store_snapshot = true;
    }
    ∷ []

run_idempotent-replay_example :
    run_idempotent 1 (some (7 ∷ [])) (some (9 ∷ [])) 200 failing true (run_all between used)
    ≡ (ok (replayed 1 201), run_all between used)
run_idempotent-replay_example =
    History.run_idempotent-replay 1 (7 ∷ []) (9 ∷ []) 201 one empty used 1 first_runs between 200
      failing true

run_idempotent-key_reused_example :
    run_idempotent 1 (some (7 ∷ [])) (some (5 ∷ [])) 200 one true (run_all between used)
    ≡ (err (conflict key_reused), run_all between used)
unfolding same_text
run_idempotent-key_reused_example =
    History.run_idempotent-key_reused 1 (7 ∷ []) 9 [] (5 ∷ []) 201 one true empty used 1 first_runs
      refl between 200 one true

run_idempotent-not_replayable_example :
    run_idempotent 1 (some (7 ∷ [])) (some (9 ∷ [])) 200 one true (run_all between claimed)
    ≡ (err (conflict not_replayable), run_all between claimed)
run_idempotent-not_replayable_example =
    History.run_idempotent-not_replayable 1 (7 ∷ []) (9 ∷ []) 201 one empty claimed 1 secret_runs
      between 200 one true

serve-EvolvesFrom_example :
    Versions.EvolvesFrom books (serve 1 (Call.delete_transaction 101) books).1
serve-EvolvesFrom_example = Versions.serve-EvolvesFrom 1 (Call.delete_transaction 101) books
