-- ===== src/Idempotency/Replay.antt =====
-- `_claim` and `_store` of app/helpers/idempotency.py around one write.
use expense_world_engine.Base.{
  ℕ, ◌≡◌, refl, sym, ap, ◌∙◌, Bool, true, false, Option, none, some, List, [], ◌∷◌, find,
  if◌then◌else◌, Option-cases, inl, inr, arith, ==_refl,
}
use expense_world_engine.Schema.{Db, Text}
use expense_world_engine.Exec.{Exec, Result, ok, err, conflict, key_reused, not_replayable}
use expense_world_engine.Text.{same_text, same_text_refl}
use expense_world_engine.Idempotency.{
  KeyRow, Store, fresh, is_key, mismatch, envelope, claim, store, commit, answer, run_idempotent,
}

pub mismatch-same : (t : Text) → mismatch t t ≡ false
mismatch-same [] = refl
mismatch-same (c ∷ t) = rw (same_text_refl (c ∷ t)) refl

module _ {B : Type 0} where
  -- The row that a first write stores.
  abbrev pub stored : ℕ → Text → Text → ℕ → Bool → B → KeyRow B
  stored u k fingerprint status keep body = record {
    key = k;
    user_id = u;
    response_snapshot = if keep then some body else none;
    response_status = status;
    request_hash = fingerprint;
  }

  answer-fresh :
      (s after : Store B) (c : Result (Option (B × ℕ))) (r : Result B × Db)
      (keys : B → List (KeyRow B)) (body : B)
      → answer s c (commit s r keys) ≡ (ok (fresh body), after)
      → (c ≡ ok none) × (after.keys ≡ keys body)
  answer-fresh s after (err e) r keys body h = absurd (ground (arith, ap (λ x. x.0) h))
  answer-fresh s after (ok (some (b, status))) r keys body h =
      absurd (ground (arith, ap (λ x. x.0) h))
  answer-fresh s after (ok none) (err e, db) keys body h = absurd (ground (arith, ap (λ x. x.0) h))
  answer-fresh s after (ok none) (ok b, db) keys body h =
      (refl, sym (ap (λ x. x.1.keys) h) ∙ ap keys (ground (arith, ap (λ x. x.0) h)))

  claim-none :
      (u : ℕ) (k fingerprint : Text) (keys : List (KeyRow B))
      → claim u k fingerprint keys ≡ ok none
      → find (is_key u k) keys ≡ none
  unfolding claim
  claim-none u k fingerprint keys h = elim (Option-cases (find (is_key u k) keys)) [
    | inl n ↦ n
    | inr (row, n) ↦ absurd (refused row (rw (n, claim) at h))
  ]
    where
      refused :
          (row : KeyRow B)
          → (if mismatch row.request_hash fingerprint
              then err (conflict key_reused)
              else envelope row.response_snapshot row.response_status)
            ≡ ok none
          → ⊥
      refused row e = ground (arith, e)

  find-store :
      (u : ℕ) (k fingerprint : Text) (status : ℕ) (keep : Bool) (body : B) (keys : List (KeyRow B))
      → find (is_key u k) keys ≡ none
      → find (is_key u k) (store u k fingerprint (if keep then some body else none) status keys)
        ≡ some (stored u k fingerprint status keep body)
  unfolding store find
  find-store u k fingerprint status keep body keys n =
      rw n (rw (same_text_refl k) (rw (==_refl u) refl))

  -- A first write leaves its row under its key.
  pub run_idempotent-stored :
      (u : ℕ) (k fingerprint : Text) (status : ℕ) (work : Exec B) (keep : Bool) (s after : Store B)
      (body : B)
      → run_idempotent u (some k) (some fingerprint) status work keep s ≡ (ok (fresh body), after)
      → find (is_key u k) after.keys ≡ some (stored u k fingerprint status keep body)
  unfolding run_idempotent
  run_idempotent-stored u k fingerprint status work keep s after body h =
      let first = answer-fresh s after (claim u k fingerprint s.keys) (work s.db) _ body h in
      rw first.1 (
        find-store u k fingerprint status keep body s.keys
          (claim-none u k fingerprint s.keys first.0))

  pub claim-stored :
      (u : ℕ) (k fingerprint : Text) (status : ℕ) (body : B) (keys : List (KeyRow B))
      → find (is_key u k) keys ≡ some (stored u k fingerprint status true body)
      → claim u k fingerprint keys ≡ ok (some (body, status))
  unfolding claim
  claim-stored u k fingerprint status body keys e =
      rw (e, claim) (rw (mismatch-same fingerprint) refl)

  pub claim-key_reused :
      (u : ℕ) (k : Text) (c : ℕ) (hash other : Text) (status : ℕ) (keep : Bool) (body : B)
      (keys : List (KeyRow B))
      → find (is_key u k) keys ≡ some (stored u k (c ∷ hash) status keep body)
      → same_text (c ∷ hash) other ≡ false
      → claim u k other keys ≡ err (conflict key_reused)
  unfolding claim
  claim-key_reused u k c hash other status keep body keys e apart = rw (e, claim) (rw apart refl)

  pub claim-not_replayable :
      (u : ℕ) (k fingerprint : Text) (status : ℕ) (body : B) (keys : List (KeyRow B))
      → find (is_key u k) keys ≡ some (stored u k fingerprint status false body)
      → claim u k fingerprint keys ≡ err (conflict not_replayable)
  unfolding claim
  claim-not_replayable u k fingerprint status body keys e =
      rw (e, claim) (rw (mismatch-same fingerprint) refl)
