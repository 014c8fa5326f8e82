-- ===== src/Inbox/Once.antt =====
-- `promote_inbox_item` of app/helpers/inbox.py, called again for the same draft.
use expense_world_engine.Base.{ℕ, ◌≡◌, refl, false, exists, arith}
use expense_world_engine.Base.Replace.{exists-update_all, find-exists}
use expense_world_engine.Schema.{InboxResponse, TransactionResponse, Resource, Db}
use expense_world_engine.Schema.Tables
use expense_world_engine.Exec.{Exec, Result, ok, err, raise, gets, not_found, ◌>>=◌}
use expense_world_engine.Exec.Keeps.{keeps_rules}
use expense_world_engine.Exec.Outcome.{
  Outcome, Triple, Triple-bind, Triple-weaken, Triple-read, Triple-post, Triple-pure, Triple-result,
}
use expense_world_engine.Query.{is_owned, update_rows}
use expense_world_engine.Query.Found.{update_returning-Triple}
use expense_world_engine.Ledger.Keeps.{SurvivesSideWrites, close-Keeps, write_activity_log-Keeps}
use expense_world_engine.Inbox.Keeps.{attach_inbox_ids-Keeps}
use expense_world_engine.Inbox.Promote.{is_promotable, retired, retire_draft, promote_inbox_item}

abbrev Any : Db → Type 0
Any db = Unit

module _ {A : Type 0} where
  nothing : (r : Result A × Db) → Outcome (λ (_ : A) _. Unit) Any r
  nothing (ok a, db) = tt
  nothing (err e, db) = tt

  skip : (m : Exec A) → Triple Any m (λ _. Any) Any
  skip m = record { run = λ db _. nothing (m db) }

module _ (u i : ℕ) where
  -- There is no pending draft with this id.
  abbrev Retired : Db → Type 0
  Retired db = exists (is_promotable i u) db.inbox ≡ false

  Retired-SurvivesSideWrites : SurvivesSideWrites u Retired
  Retired-SurvivesSideWrites = record { links = λ js db h. h; log = λ e db own h. h }

  retire_draft-Triple :
      (before : InboxResponse) → Triple Any (retire_draft u i before) (λ _. Retired) Any
  unfolding retire_draft update_rows
  retire_draft-Triple before =
      Triple-bind
        (Triple-weaken {E = Retired} (λ _ _. tt)
          (update_returning-Triple Tables.inbox _ _ λ db _.
            exists-update_all (is_promotable i u) (is_owned Tables.inbox i u) (retired db.now)
              db.inbox (λ x e. ground (arith, e)) (λ x. ground arith)))
        λ o.
          Triple-read (λ _ _. tt)
            (let close = close-Keeps Retired-SurvivesSideWrites in
              let log = write_activity_log-Keeps Retired-SurvivesSideWrites in
              search (keeps_rules, attach_inbox_ids-Keeps, close, log) depth 12)

  promote-Triple : (target : ℕ) → Triple Any (promote_inbox_item u i target) (λ _. Retired) Any
  unfolding promote_inbox_item
  promote-Triple target = Triple-bind (skip _) λ found. Triple-bind (skip _) λ draft_row.
      Triple-bind (skip _) λ before. Triple-bind (skip _) λ errors. Triple-bind (skip _) λ _.
        Triple-bind (skip _) λ response.
          Triple-bind (retire_draft-Triple before)
            λ _. Triple-post (λ _ db h. h.0) (Triple-pure (λ _ _. tt) response)

  -- A draft is promoted at most once: after a promotion that returned, the next one finds no
  -- draft, whatever target it names, and changes nothing.
  pub promote_inbox_item-again :
      (target again : ℕ) (db : Db) (response : TransactionResponse) (after : Db)
      → promote_inbox_item u i target db ≡ (ok response, after)
      → promote_inbox_item u i again after ≡ (err (not_found Resource.inbox_item), after)
  unfolding promote_inbox_item gets raise ◌>>=◌
  promote_inbox_item-again target again db response after e =
      rw
        (find-exists (is_promotable i u) after.inbox
          (Triple-result (promote-Triple target) db response after tt e))
        refl
