-- ===== src/Calls/Audit/Batch.antt =====
-- `create_batch` of app/helpers/transactions.py: a batch has an item, so it logs one row at least.
use expense_world_engine.Base.{ℕ, ◌≡◌, refl, Bool, true, false, List, [], ◌∷◌, arith}
use expense_world_engine.Schema.{Db, Transaction, TransactionResponse, ledger}
use expense_world_engine.Exec.{Exec, pure, raise, ◌>>=◌, ◌>>◌}
use expense_world_engine.Exec.Keeps.{Keeps, Keeps-pure, Keeps-gets, keeps_rules}
use expense_world_engine.Exec.Outcome.{
  Triple, Triple-Keeps, Triple-weaken, Triple-bind, Triple-fact,
}
use expense_world_engine.Ledger.Keeps.{
  SurvivesSideWrites, insert_items-Keeps, attach_hashtag_ids-Keeps, attach_all-Keeps, log_all-Keeps,
}
use expense_world_engine.Ledger.Requests.{TransactionCreateRequest}
use expense_world_engine.Ledger.Create.{create_batch, insert_items, attach_all, log_all}
use expense_world_engine.Calls.Keeps.{SurvivesCalls}
use expense_world_engine.Calls.Audit.{Appends, Appends-SurvivesCalls}
use expense_world_engine.Calls.Audit.Logs.{
  Logs, IsLogged, IsLogged-log, Logs-log, Logs-then, Logs-first,
}
use expense_world_engine.Calls.Audit.Transactions.{insert_row-Appends, tags-Appends}

-- A list with an element
abbrev is_nonempty : {A : Type 0} → List A → Bool
is_nonempty [] = false
is_nonempty (x ∷ l) = true

-- From the log of `a`, `m` returns a list with an element.
abbrev Lists : ℕ → Db → {A : Type 0} → Exec (List A) → Type 0
Lists u a m = Triple (Appends u a) m (λ l db. Appends u a db × (is_nonempty l ≡ true)) (λ _. Unit)

module _ (u : ℕ) (a : Db) where
  Lists-pure : {A : Type 0} (x : A) (l : List A) → Lists u a (pure (x ∷ l))
  unfolding pure
  Lists-pure x l = record { run = λ db h. (h, refl) }

  Lists-then :
      {A B : Type 0} (m : Exec A) (f : A → Exec (List B))
      → Keeps (Appends u a) m
      → ((x : A) → Lists u a (f x))
      → Lists u a (m >>= f)
  Lists-then m f k l = Triple-bind (Triple-weaken (λ db h. tt) (Triple-Keeps k)) l

  survives : SurvivesCalls u (Appends u a)
  survives = Appends-SurvivesCalls u a

  items-Appends :
      (items : List TransactionCreateRequest) → Keeps (Appends u a) (insert_items u items)
  items-Appends = insert_items-Keeps survives.side survives.insert_transaction

  insert_items-Lists :
      (item : TransactionCreateRequest) (rest : List TransactionCreateRequest)
      → Lists u a (insert_items u (item ∷ rest))
  unfolding insert_items
  insert_items-Lists item rest = Lists-then _ _ (insert_row-Appends u a _) λ row.
      Lists-then _ _ (tags-Appends u a _ _)
        λ _. Lists-then _ _ (items-Appends rest) λ rows. Lists-pure row rows

  attach_all-Lists :
      (rows : List Transaction) → is_nonempty rows ≡ true → Lists u a (attach_all rows)
  unfolding attach_all
  attach_all-Lists [] h = absurd (ground (arith, h))
  attach_all-Lists (row ∷ rows) h =
      Lists-then _ _ (attach_hashtag_ids-Keeps row ledger) λ response.
        Lists-then _ _ (attach_all-Keeps rows) λ responses. Lists-pure response responses

  logs_survive : SurvivesSideWrites u (IsLogged u a)
  logs_survive = record { links = λ js db h. h; log = IsLogged-log u a }

  log_all-Logs :
      (rows : List TransactionResponse) → is_nonempty rows ≡ true → Logs u a (log_all u rows)
  unfolding log_all
  log_all-Logs [] h = absurd (ground (arith, h))
  log_all-Logs (row ∷ rows) h =
      Logs-first u a _ _ (Logs-log u a _ _ _ _ _) (λ _. log_all-Keeps logs_survive rows)

  log_rows-Logs :
      (rows : List Transaction)
      → is_nonempty rows ≡ true
      → Logs u a (attach_all rows >>= λ responses. log_all u responses >> pure responses)
  log_rows-Logs rows h = Triple-bind (attach_all-Lists rows h) λ responses.
      Triple-fact λ k. Logs-first u a _ _ (log_all-Logs responses k) (λ _. Keeps-pure responses)

  pub create_batch-Logs : (items : List TransactionCreateRequest) → Logs u a (create_batch u items)
  unfolding create_batch raise
  create_batch-Logs [] = record { run = λ db h. tt }
  create_batch-Logs (item ∷ rest) = Logs-then u a _ _ (Keeps-gets _) λ errors.
      Logs-then u a _ _ (search keeps_rules)
        λ _. Triple-bind (insert_items-Lists item rest) λ rows. Triple-fact (log_rows-Logs rows)
