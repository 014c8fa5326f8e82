-- ===== src/Jobs/Wait.antt =====
-- The wait for the database of app/jobs/fetch_exchange_rates.py.
use expense_world_engine.Base.{ℕ, zero, suc, ◌+◌, ◌≡◌, ◌<◌, sym, ap, subst, ◌∙◌, arith}
use expense_world_engine.Jobs.{Attempt, connected, transient, pool_at, wait_for_db, create_pool}

wait-pool_at :
    (try : ℕ → Attempt) (tries k n : ℕ)
    → k < tries
    → try (n + k) ≡ connected
    → ((i : ℕ) → i < k → try (n + i) ≡ transient)
    → wait_for_db try tries n ≡ pool_at (n + k)
unfolding wait_for_db
wait-pool_at try zero k n h up down = absurd (omega (arith, h))
wait-pool_at try (suc tries) zero n h up down =
    rw (subst (λ m. try m ≡ connected) now up) (ap pool_at (sym now))
  where
    now : n + 0 ≡ n
    now = omega arith
wait-pool_at try (suc tries) (suc k) n h up down =
    rw (subst (λ m. try m ≡ transient) now (down 0 (omega arith))) (
      wait-pool_at try tries k (suc n) (omega (arith, h))
        (subst (λ m. try m ≡ connected) (later k) up)
        (λ i below. subst (λ m. try m ≡ transient) (later i) (down (suc i) (omega (arith, below))))
      ∙ ap pool_at (sym (later k)))
  where
    now : n + 0 ≡ n
    now = omega arith

    later : (i : ℕ) → n + suc i ≡ suc n + i
    later i = omega arith

-- If the database is reached on one of the 30 tries, and every try before it fails while the
-- database comes up, the job gets its pool on that try.
pub create_pool-pool_at :
    (try : ℕ → Attempt) (k : ℕ)
    → k < 30
    → try (1 + k) ≡ connected
    → ((i : ℕ) → i < k → try (1 + i) ≡ transient)
    → create_pool try ≡ pool_at (1 + k)
unfolding create_pool
create_pool-pool_at try k h up down = wait-pool_at try 30 k 1 h up down
