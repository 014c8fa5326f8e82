-- ===== src/Calls/Versions.antt =====
-- The `version` and soft-delete discipline of app/helpers/query_builder.py under the calls of
-- app/routers.
use expense_world_engine.Base.{
  ℕ, suc, ◌<◌, ◌≡◌, ◌⊎◌, refl, ap, ◌∙◌, inl, inr, Bool, true, false, Option, none, some, List, [],
  ◌∷◌, update_where, if◌then◌else◌, arith,
}
use expense_world_engine.Base.Int.{ℤ}
use expense_world_engine.Schema.{Db, Transaction, InboxItem, Reconciliation}
use expense_world_engine.Schema.Tables.{Table}
use expense_world_engine.Schema.Tables
use expense_world_engine.Exec.{modify}
use expense_world_engine.Exec.Keeps.{Keeps, Keeps-modify}
use expense_world_engine.Query.{update_rows, dynamic_update, soft_delete, restore}
use expense_world_engine.Query.Owned.{update_returning-Keeps}
use expense_world_engine.Ledger.Requests.{TransactionFields}
use expense_world_engine.Ledger.Edit.{set_columns, set_amount}
use expense_world_engine.Calls.{Call, serve}
use expense_world_engine.Calls.Keeps.{SurvivesCalls, serve-Keeps}

bumped_same : (a b c : ℕ) → b ≡ suc c → c ≡ a → a < b
bumped_same a b c e h = omega arith

bumped : (a b c : ℕ) → b ≡ suc c → a < c → a < b
bumped a b c e h = omega arith

module _ {R : Type 0} (t : Table R) where
  -- The row is the same, or it is the same id and owner under a higher version.
  abbrev pub Later : R → R → Type 0
  Later r x =
      (x ≡ r)
      ⊎ ((t.id_of x ≡ t.id_of r)
          × ((t.owner_of x ≡ t.owner_of r) × (t.version_of r < t.version_of x)))

  -- Every old row is still there, in its order, as itself or as a later version.
  abbrev pub Evolves : List R → List R → Type 0
  Evolves [] xs = Unit
  Evolves (r ∷ rs) [] = ⊥
  Evolves (r ∷ rs) (x ∷ xs) = (Later r x × Evolves rs xs) ⊎ Evolves (r ∷ rs) xs

  Evolves-refl : (rs : List R) → Evolves rs rs
  Evolves-refl [] = tt
  Evolves-refl (r ∷ rs) = inl (inl refl, Evolves-refl rs)

  Evolves-cons : (rs xs : List R) (x : R) → Evolves rs xs → Evolves rs (x ∷ xs)
  Evolves-cons [] xs x h = tt
  Evolves-cons (r ∷ rs) xs x h = inr h

  -- An UPDATE that keeps ids and owners and bumps the version.
  record Bumps (f : R → R) : Type 0 where
    keeps_id : (x : R) → t.id_of (f x) ≡ t.id_of x
    keeps_owner : (x : R) → t.owner_of (f x) ≡ t.owner_of x
    bumps_version : (x : R) → t.version_of (f x) ≡ suc (t.version_of x)

  Later-step : (f : R → R) (r x : R) → Bumps f → Later r x → Later r (f x)
  Later-step f r x b (inl e) = inr (
    b.keeps_id x ∙ ap t.id_of e,
    (b.keeps_owner x ∙ ap t.owner_of e, bumped_same _ _ _ (b.bumps_version x) (ap t.version_of e)),
  )
  Later-step f r x b (inr h) =
      inr (b.keeps_id x ∙ h.0, (b.keeps_owner x ∙ h.1.0, bumped _ _ _ (b.bumps_version x) h.1.1))

  Later-if : (c : Bool) (f : R → R) (r x : R) → Bumps f → Later r x → Later r (if c then f x else x)
  Later-if true f r x b h = Later-step f r x b h
  Later-if false f r x b h = h

  Evolves-update_where :
      (p : R → Bool) (f : R → R) (rs xs : List R)
      → Bumps f
      → Evolves rs xs
      → Evolves rs (update_where p f xs)
  unfolding update_where
  Evolves-update_where p f [] xs b h = tt
  Evolves-update_where p f (r ∷ rs) [] b h = h
  Evolves-update_where p f (r ∷ rs) (x ∷ xs) b (inl h) =
      inl (Later-if (p x) f r x b h.0, Evolves-update_where p f rs xs b h.1)
  Evolves-update_where p f (r ∷ rs) (x ∷ xs) b (inr h) =
      inr (Evolves-update_where p f (r ∷ rs) xs b h)

-- The rows of the ledger, the drafts and the reconciliations.
pub record EvolvesFrom (a b : Db) : Type 0 where
  pub transactions : Evolves Tables.transactions a.transactions b.transactions
  pub inbox : Evolves Tables.inbox a.inbox b.inbox
  pub reconciliations : Evolves Tables.reconciliations a.reconciliations b.reconciliations

EvolvesFrom-refl : (a : Db) → EvolvesFrom a a
EvolvesFrom-refl a = record {
  transactions = Evolves-refl Tables.transactions a.transactions;
  inbox = Evolves-refl Tables.inbox a.inbox;
  reconciliations = Evolves-refl Tables.reconciliations a.reconciliations;
}

module _ (a : Db) where
  transactions-EvolvesFrom :
      (p : Transaction → Bool) (f : ℕ → Transaction → Transaction)
      → ((now : ℕ) → Bumps Tables.transactions (f now))
      → Keeps (EvolvesFrom a) (modify (update_rows Tables.transactions p f))
  unfolding update_rows
  transactions-EvolvesFrom p f b = Keeps-modify _ (λ db h. record {
    transactions =
        Evolves-update_where Tables.transactions p (f db.now) a.transactions db.transactions
          (b db.now) h.transactions;
    inbox = h.inbox;
    reconciliations = h.reconciliations;
  })

  inbox-EvolvesFrom :
      (p : InboxItem → Bool) (f : ℕ → InboxItem → InboxItem)
      → ((now : ℕ) → Bumps Tables.inbox (f now))
      → Keeps (EvolvesFrom a) (modify (update_rows Tables.inbox p f))
  unfolding update_rows
  inbox-EvolvesFrom p f b = Keeps-modify _ (λ db h. record {
    transactions = h.transactions;
    inbox = Evolves-update_where Tables.inbox p (f db.now) a.inbox db.inbox (b db.now) h.inbox;
    reconciliations = h.reconciliations;
  })

  reconciliations-EvolvesFrom :
      (p : Reconciliation → Bool) (f : ℕ → Reconciliation → Reconciliation)
      → ((now : ℕ) → Bumps Tables.reconciliations (f now))
      → Keeps (EvolvesFrom a) (modify (update_rows Tables.reconciliations p f))
  unfolding update_rows
  reconciliations-EvolvesFrom p f b = Keeps-modify _ (λ db h. record {
    transactions = h.transactions;
    inbox = h.inbox;
    reconciliations =
        Evolves-update_where Tables.reconciliations p (f db.now) a.reconciliations
          db.reconciliations (b db.now) h.reconciliations;
  })

  amount_kept :
      (o : Option ℤ) (r : Transaction)
      → ((set_amount o r).id ≡ r.id)
        × (((set_amount o r).user_id ≡ r.user_id) × ((set_amount o r).version ≡ r.version))
  amount_kept none r = (refl, (refl, refl))
  amount_kept (some v) r = (refl, (refl, refl))

  edit-Bumps :
      (f : TransactionFields) (recon : Option (Option ℕ)) (now : ℕ)
      → Bumps Tables.transactions (λ r. Tables.transactions.touched now (set_columns f recon r))
  edit-Bumps f recon now = record {
    keeps_id = λ r. (amount_kept f.amount_cents _).0;
    keeps_owner = λ r. (amount_kept f.amount_cents _).1.0;
    bumps_version = λ r. ap suc (amount_kept f.amount_cents _).1.1;
  }

  abbrev touched-Bumps :
      {R : Type 0} {t : Table R} {f : R → R}
      → ((x : R) → t.id_of (f x) ≡ t.id_of x)
      → ((x : R) → t.owner_of (f x) ≡ t.owner_of x)
      → ((x : R) → t.version_of (f x) ≡ suc (t.version_of x))
      → Bumps t f
  touched-Bumps i o v = record { keeps_id = i; keeps_owner = o; bumps_version = v }

  EvolvesFrom-SurvivesCalls : (u : ℕ) → SurvivesCalls u (EvolvesFrom a)
  unfolding dynamic_update soft_delete restore
  EvolvesFrom-SurvivesCalls u = record {
    side = record {
      links = λ js db h. record {
        transactions = h.transactions;
        inbox = h.inbox;
        reconciliations = h.reconciliations;
      };
      log = λ e db own h. record {
        transactions = h.transactions;
        inbox = h.inbox;
        reconciliations = h.reconciliations;
      };
    };
    insert_transaction = λ n db fresh h. record {
      transactions =
          Evolves-cons Tables.transactions a.transactions db.transactions _ h.transactions;
      inbox = h.inbox;
      reconciliations = h.reconciliations;
    };
    insert_item = λ body db h. record {
      transactions = h.transactions;
      inbox = Evolves-cons Tables.inbox a.inbox db.inbox _ h.inbox;
      reconciliations = h.reconciliations;
    };
    insert_reconciliation = λ body t db fresh h. record {
      transactions = h.transactions;
      inbox = h.inbox;
      reconciliations =
          Evolves-cons Tables.reconciliations a.reconciliations db.reconciliations _
            h.reconciliations;
    };
    edit_transaction = λ i f recon.
        update_returning-Keeps Tables.transactions _ _
          (transactions-EvolvesFrom _ _ (edit-Bumps f recon));
    close_transaction = λ i.
        update_returning-Keeps Tables.transactions _ _
          (transactions-EvolvesFrom _ _ (λ now. touched-Bumps (λ x. refl) (λ x. refl) (λ x. refl)));
    reopen_transaction = λ i unlink.
        update_returning-Keeps Tables.transactions _ _
          (transactions-EvolvesFrom _ _ (λ now. touched-Bumps (λ x. refl) (λ x. refl) (λ x. refl)));
    edit_item = λ i f.
        update_returning-Keeps Tables.inbox _ _
          (inbox-EvolvesFrom _ _ (λ now. touched-Bumps (λ x. refl) (λ x. refl) (λ x. refl)));
    close_item = λ i.
        update_returning-Keeps Tables.inbox _ _
          (inbox-EvolvesFrom _ _ (λ now. touched-Bumps (λ x. refl) (λ x. refl) (λ x. refl)));
    retire_item = λ i.
        update_returning-Keeps Tables.inbox _ _
          (inbox-EvolvesFrom _ _ (λ now. touched-Bumps (λ x. refl) (λ x. refl) (λ x. refl)));
    edit_reconciliation = λ i f. update_returning-Keeps Tables.reconciliations _ _ (
        reconciliations-EvolvesFrom _ _ (λ now. touched-Bumps (λ x. refl) (λ x. refl) (λ x. refl)));
    flip = λ i target.
        reconciliations-EvolvesFrom _ _ (λ now. touched-Bumps (λ x. refl) (λ x. refl) (λ x. refl));
    touch_assigned = λ i.
        transactions-EvolvesFrom _ _ (λ now. touched-Bumps (λ x. refl) (λ x. refl) (λ x. refl));
    unassign = λ i.
        transactions-EvolvesFrom _ _ (λ now. touched-Bumps (λ x. refl) (λ x. refl) (λ x. refl));
    close_reconciliation = λ i. update_returning-Keeps Tables.reconciliations _ _ (
        reconciliations-EvolvesFrom _ _ (λ now. touched-Bumps (λ x. refl) (λ x. refl) (λ x. refl)));
    reopen_reconciliation = λ i. update_returning-Keeps Tables.reconciliations _ _ (
        reconciliations-EvolvesFrom _ _ (λ now. touched-Bumps (λ x. refl) (λ x. refl) (λ x. refl)));
  }

-- No call removes a row of the ledger, of the drafts or of the reconciliations, and a row that a
-- call changes has a higher version under its id and its owner, whether the call returns or raises.
pub serve-EvolvesFrom : (u : ℕ) (call : Call) (db : Db) → EvolvesFrom db (serve u call db).1
serve-EvolvesFrom u call db =
    (serve-Keeps (EvolvesFrom-SurvivesCalls db u) call).at db (EvolvesFrom-refl db)
