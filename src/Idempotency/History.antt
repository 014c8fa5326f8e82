-- ===== src/Idempotency/History.antt =====
-- Histories of writes under app/helpers/idempotency.py.
use expense_world_engine.Base.{
  ℕ, ◌≡◌, refl, Bool, true, false, ◌&&◌, Option, none, some, List, [], ◌∷◌, find, ◌==◌, is_some,
  Bool-cases, inl, inr, arith,
}
use expense_world_engine.Schema.{Db, Text}
use expense_world_engine.Exec.{Exec, Result, ok, err, conflict, key_reused, not_replayable}
use expense_world_engine.Text.{same_text, same_text_eq}
use expense_world_engine.Idempotency.{
  KeyRow, Store, Reply, fresh, replayed, is_key, claim, store, commit, answer, run_idempotent,
}
use expense_world_engine.Idempotency.Replay.{
  run_idempotent-stored, claim-stored, claim-key_reused, claim-not_replayable,
}

-- One request, with its work.
pub record Write (B : Type 0) : Type 0 where
  pub user_id : ℕ
  pub key : Option Text
  pub fingerprint : Option Text
  pub status_code : ℕ
  pub work : Exec B
  pub store_snapshot : Bool

module _ {B : Type 0} where
  abbrev pub run_write : Write B → Store B → Result (Reply B) × Store B
  run_write w s =
      run_idempotent w.user_id w.key w.fingerprint w.status_code w.work w.store_snapshot s

  unfoldable pub run_all : List (Write B) → Store B → Store B
  run_all [] s = s
  run_all (w ∷ ws) s = run_all ws (run_write w s).1

  -- No write takes a key row away.
  store-keeps :
      (u v : ℕ) (k l fingerprint : Text) (body : Option B) (status : ℕ) (keys : List (KeyRow B))
      (row : KeyRow B)
      → find (is_key u k) keys ≡ some row
      → find (is_key u k) (store v l fingerprint body status keys) ≡ some row
  unfolding store find
  store-keeps u v k l fingerprint body status keys row e =
      elim (Bool-cases (is_some (find (is_key v l) keys))) [
        | inl taken ↦ rw taken e
        | inr free ↦ rw free (elim (Bool-cases (v == u && same_text l k)) [
          | inl same ↦ absurd (found_twice same free)
          | inr apart ↦ rw apart e
        ])
      ]
    where
      same_user : (v == u && same_text l k) ≡ true → v ≡ u
      same_user h = ground (arith, h)

      same_key : (v == u && same_text l k) ≡ true → l ≡ k
      same_key h = same_text_eq l k (ground (arith, h))

      found_twice : (v == u && same_text l k) ≡ true → is_some (find (is_key v l) keys) ≡ false → ⊥
      found_twice same free = ground (arith, rw (same_key same) at (rw (same_user same) at free), e)

  commit-keeps :
      (u : ℕ) (k : Text) (s : Store B) (r : Result B × Db) (keys : B → List (KeyRow B))
      (row : KeyRow B)
      → find (is_key u k) s.keys ≡ some row
      → ((body : B) → find (is_key u k) (keys body) ≡ some row)
      → find (is_key u k) (commit s r keys).1.keys ≡ some row
  commit-keeps u k s (err e, db) keys row h kept = h
  commit-keeps u k s (ok body, db) keys row h kept = kept body

  answer-keeps :
      (u : ℕ) (k : Text) (s : Store B) (c : Result (Option (B × ℕ)))
      (r : Result (Reply B) × Store B) (row : KeyRow B)
      → find (is_key u k) s.keys ≡ some row
      → find (is_key u k) r.1.keys ≡ some row
      → find (is_key u k) (answer s c r).1.keys ≡ some row
  answer-keeps u k s (err e) r row h n = h
  answer-keeps u k s (ok (some (body, status))) r row h n = h
  answer-keeps u k s (ok none) r row h n = n

  run_idempotent-keeps :
      (u : ℕ) (k : Text) (row : KeyRow B) (v : ℕ) (key fingerprint : Option Text) (status : ℕ)
      (work : Exec B) (keep : Bool) (s : Store B)
      → find (is_key u k) s.keys ≡ some row
      → find (is_key u k) (run_idempotent v key fingerprint status work keep s).1.keys ≡ some row
  unfolding run_idempotent
  run_idempotent-keeps u k row v none fingerprint status work keep s h =
      commit-keeps u k s (work s.db) _ row h (λ _. h)
  run_idempotent-keeps u k row v (some l) none status work keep s h = h
  run_idempotent-keeps u k row v (some l) (some fingerprint) status work keep s h =
      answer-keeps u k s (claim v l fingerprint s.keys) _ row h (
        commit-keeps u k s (work s.db) _ row h
          λ body. store-keeps u v k l fingerprint _ status s.keys row h)

  run_all-keeps :
      (u : ℕ) (k : Text) (row : KeyRow B) (ws : List (Write B)) (s : Store B)
      → find (is_key u k) s.keys ≡ some row
      → find (is_key u k) (run_all ws s).keys ≡ some row
  unfolding run_all
  run_all-keeps u k row [] s h = h
  run_all-keeps u k row (w ∷ ws) s h = run_all-keeps u k row ws _ (
      run_idempotent-keeps u k row w.user_id w.key w.fingerprint w.status_code w.work
        w.store_snapshot s h)

  -- A request that returned is replayed after any history of writes by anyone: the same request
  -- under its key gets the stored body and status, its work is not run and nothing changes.
  pub run_idempotent-replay :
      (u : ℕ) (k fingerprint : Text) (status : ℕ) (work : Exec B) (s after : Store B) (body : B)
      → run_idempotent u (some k) (some fingerprint) status work true s ≡ (ok (fresh body), after)
      → (ws : List (Write B)) (status' : ℕ) (retry : Exec B) (keep : Bool)
      → run_idempotent u (some k) (some fingerprint) status' retry keep (run_all ws after)
        ≡ (ok (replayed body status), run_all ws after)
  unfolding run_idempotent
  run_idempotent-replay u k fingerprint status work s after body h ws status' retry keep =
      rw
        (claim-stored u k fingerprint status body (run_all ws after).keys (
          run_all-keeps u k _ ws after
            (run_idempotent-stored u k fingerprint status work true s after body h)))
        refl

  -- Another request under a key that was used is refused, and nothing changes; the digest of the
  -- first request is not empty.
  pub run_idempotent-key_reused :
      (u : ℕ) (k : Text) (c : ℕ) (hash other : Text) (status : ℕ) (work : Exec B) (keep : Bool)
      (s after : Store B) (body : B)
      → run_idempotent u (some k) (some (c ∷ hash)) status work keep s ≡ (ok (fresh body), after)
      → same_text (c ∷ hash) other ≡ false
      → (ws : List (Write B)) (status' : ℕ) (retry : Exec B) (keep' : Bool)
      → run_idempotent u (some k) (some other) status' retry keep' (run_all ws after)
        ≡ (err (conflict key_reused), run_all ws after)
  unfolding run_idempotent
  run_idempotent-key_reused u k c hash other status work keep s after body h apart ws status' retry
        keep' =
      rw
        (claim-key_reused u k c hash other status keep body (run_all ws after).keys
          (run_all-keeps u k _ ws after
            (run_idempotent-stored u k (c ∷ hash) status work keep s after body h))
          apart)
        refl

  -- A response with a one-time secret is never served again: the same request is refused, and
  -- nothing changes.
  pub run_idempotent-not_replayable :
      (u : ℕ) (k fingerprint : Text) (status : ℕ) (work : Exec B) (s after : Store B) (body : B)
      → run_idempotent u (some k) (some fingerprint) status work false s ≡ (ok (fresh body), after)
      → (ws : List (Write B)) (status' : ℕ) (retry : Exec B) (keep : Bool)
      → run_idempotent u (some k) (some fingerprint) status' retry keep (run_all ws after)
        ≡ (err (conflict not_replayable), run_all ws after)
  unfolding run_idempotent
  run_idempotent-not_replayable u k fingerprint status work s after body h ws status' retry keep =
      rw
        (claim-not_replayable u k fingerprint status body (run_all ws after).keys (
          run_all-keeps u k _ ws after
            (run_idempotent-stored u k fingerprint status work false s after body h)))
        refl
