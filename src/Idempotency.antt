-- ===== src/Idempotency.antt =====
-- app/helpers/idempotency.py: the one transaction boundary of the write path, under a permanent
-- key per intended write. The advisory lock is not modelled: one database transaction runs at a
-- time. The digest is a parameter, and a response body is of any type.
pub mod Replay
pub mod History
use expense_world_engine.Base.{
  ℕ, ◌≡◌, Bool, true, false, not, ◌&&◌, Option, none, some, List, [], ◌∷◌, ◌++◌, find, ◌==◌,
  is_some, is_none, if◌then◌else◌,
}
use expense_world_engine.Schema.{Db, Text}
use expense_world_engine.Exec.{
  Exec, Result, ok, err, AppError, conflict, internal_error, key_reused, not_replayable,
}
use expense_world_engine.Text.{same_text}

pub record Request : Type 0 where
  pub method : Text
  pub path : Text
  pub query : Text
  pub body : Text

-- `capture_request_fingerprint`: each part but the body is closed by a zero byte.
abbrev pub request_fingerprint : (Text → Text) → Request → Text
request_fingerprint sha256 r =
    sha256 (r.method ++ (0 ∷ (r.path ++ (0 ∷ (r.query ++ (0 ∷ r.body))))))

-- A row of `idempotency_keys`; a null snapshot stands for a secret that is not kept.
pub record KeyRow (B : Type 0) : Type 0 where
  pub key : Text
  pub user_id : ℕ
  pub response_snapshot : Option B
  pub response_status : ℕ
  pub request_hash : Text

-- The database with its key table.
pub record Store (B : Type 0) : Type 0 where
  pub db : Db
  pub keys : List (KeyRow B)

-- A first-time body, or a stored envelope verbatim.
pub data Reply (B : Type 0) : Type 0 where
  fresh : B → Reply B
  replayed : B → ℕ → Reply B

-- `row["request_hash"] and row["request_hash"] != fingerprint`
abbrev pub mismatch : Text → Text → Bool
mismatch [] fingerprint = false
mismatch (c ∷ hash) fingerprint = not (same_text (c ∷ hash) fingerprint)

module _ {B : Type 0} where
  -- WHERE user_id = $1 AND key = $2
  abbrev pub is_key : ℕ → Text → KeyRow B → Bool
  is_key u k r = r.user_id == u && same_text r.key k

  abbrev pub envelope : Option B → ℕ → Result (Option (B × ℕ))
  envelope none status = err (conflict not_replayable)
  envelope (some body) status = ok (some (body, status))

  unfoldable pub claim : ℕ → Text → Text → List (KeyRow B) → Result (Option (B × ℕ))
  claim u k fingerprint keys = elim (find (is_key u k) keys) [
    | none ↦ ok none
    | some row ↦
        if mismatch row.request_hash fingerprint
        then err (conflict key_reused)
        else envelope row.response_snapshot row.response_status
  ]

  -- ON CONFLICT (user_id, key) DO NOTHING
  unfoldable pub store : ℕ → Text → Text → Option B → ℕ → List (KeyRow B) → List (KeyRow B)
  store u k fingerprint body status keys =
      if is_some (find (is_key u k) keys)
      then keys
      else record {
        key = k;
        user_id = u;
        response_snapshot = body;
        response_status = status;
        request_hash = fingerprint;
      }
        ∷ keys

  -- The transaction ends: a raise rolls it back, a return commits it with the key row.
  abbrev pub commit : Store B → Result B × Db → (B → List (KeyRow B)) → Result (Reply B) × Store B
  commit s (err e, db) keys = (err e, s)
  commit s (ok body, db) keys = (ok (fresh body), record { db = db; keys = keys body })

  abbrev pub answer :
      Store B → Result (Option (B × ℕ)) → Result (Reply B) × Store B → Result (Reply B) × Store B
  answer s (err e) first_time = (err e, s)
  answer s (ok (some (body, status))) first_time = (ok (replayed body status), s)
  answer s (ok none) first_time = first_time

  unfoldable pub run_idempotent :
      ℕ → Option Text → Option Text → ℕ → Exec B → Bool → Store B → Result (Reply B) × Store B
  unfolding claim store
  run_idempotent u none fingerprint status work keep s = commit s (work s.db) (λ _. s.keys)
  run_idempotent u (some k) none status work keep s = (err internal_error, s)
  run_idempotent u (some k) (some fingerprint) status work keep s =
      answer s (claim u k fingerprint s.keys) (
        commit s (work s.db)
          (λ body. store u k fingerprint (if keep then some body else none) status s.keys))
