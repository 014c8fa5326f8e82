-- ===== src/Calls/Audit/Logs.antt =====
-- The log entry of a call that returns: each service function of the write routes makes its audit
-- row last, in app/helpers/transactions.py, inbox.py and reconciliations.py.
use expense_world_engine.Base.{ℕ, ◌≡◌, refl, ap, Option, List, ◌∷◌, ◌++◌, All}
use expense_world_engine.Schema.{Db, LogEntry, Resource, Snapshot, ActivityAction}
use expense_world_engine.Exec.{Exec, modify, ◌>>=◌}
use expense_world_engine.Exec.Keeps.{Keeps, Keeps-pure, keeps_rules}
use expense_world_engine.Exec.Outcome.{Triple, Triple-Keeps, Triple-weaken, Triple-bind}
use expense_world_engine.Query.{write_activity_log}
use expense_world_engine.Calls.Audit.{Appends}

-- The log of `b` is the log of `a` under one new entry at least; user `u` owns and made them all.
abbrev pub IsLogged : ℕ → Db → Db → Type 0
IsLogged u a b =
    (e : LogEntry) × (new : List LogEntry) × (b.activity_log ≡ e ∷ new ++ a.activity_log)
    × All (λ (x : LogEntry). (x.user_id ≡ u) × (x.changed_by ≡ u)) (e ∷ new)

-- From the log of `a`, `m` returns with an entry more.
abbrev pub Logs : ℕ → Db → {A : Type 0} → Exec A → Type 0
Logs u a m = Triple (Appends u a) m (λ _. IsLogged u a) (λ _. Unit)

module _ (u : ℕ) (a : Db) where
  pub IsLogged-log :
      (e : LogEntry) (db : Db)
      → (e.user_id ≡ u) × (e.changed_by ≡ u)
      → IsLogged u a db
      → IsLogged u a (record db { activity_log = e ∷ db.activity_log })
  IsLogged-log e db own h = (e, h.0 ∷ h.1, ap (λ l. e ∷ l) h.2, (own, h.3))

  add_entry :
      (e : LogEntry) (db : Db)
      → (e.user_id ≡ u) × (e.changed_by ≡ u)
      → Appends u a db
      → IsLogged u a (record db { activity_log = e ∷ db.activity_log })
  add_entry e db own h = (e, h.0, ap (λ l. e ∷ l) h.1, (own, h.2))

  pub Logs-log :
      (noun : Resource) (i : ℕ) (action : ActivityAction) (before after : Option Snapshot)
      → Logs u a (write_activity_log u noun i action before after)
  unfolding write_activity_log modify
  Logs-log noun i action before after = record { run = λ db h. add_entry _ db (refl, refl) h }

  module _ {A B : Type 0} where
    -- What comes before the entry
    pub Logs-then :
        (m : Exec A) (f : A → Exec B)
        → Keeps (Appends u a) m
        → ((x : A) → Logs u a (f x))
        → Logs u a (m >>= f)
    Logs-then m f k l = Triple-bind (Triple-weaken (λ db h. tt) (Triple-Keeps k)) l

    -- What comes after it
    pub Logs-first :
        (m : Exec A) (f : A → Exec B)
        → Logs u a m
        → ((x : A) → Keeps (IsLogged u a) (f x))
        → Logs u a (m >>= f)
    Logs-first m f l k = Triple-bind l (λ x. Triple-weaken (λ db h. tt) (Triple-Keeps (k x)))

pub ruleset logs_rules = (keeps_rules, Logs-then, Logs-first, Logs-log)
