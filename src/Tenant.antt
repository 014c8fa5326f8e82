-- ===== src/Tenant.antt =====
-- Tenant isolation: what one user's requests leave alone of another user's rows.
use expense_world_engine.Base.{ℕ, ◌≡◌, refl, select, ◌==◌}
use expense_world_engine.Schema.{Db}

-- The rows of user `v` are the same, in every table but the junctions.
pub record SameTenant (v : ℕ) (a b : Db) : Type 0 where
  pub accounts : select (λ r. r.user_id == v) b.accounts ≡ select (λ r. r.user_id == v) a.accounts
  pub categories :
      select (λ r. r.user_id == v) b.categories ≡ select (λ r. r.user_id == v) a.categories
  pub hashtags : select (λ r. r.user_id == v) b.hashtags ≡ select (λ r. r.user_id == v) a.hashtags
  pub transactions :
      select (λ r. r.user_id == v) b.transactions ≡ select (λ r. r.user_id == v) a.transactions
  pub inbox : select (λ r. r.user_id == v) b.inbox ≡ select (λ r. r.user_id == v) a.inbox
  pub reconciliations :
      select (λ r. r.user_id == v) b.reconciliations
      ≡ select (λ r. r.user_id == v) a.reconciliations
  pub activity_log :
      select (λ r. r.user_id == v) b.activity_log ≡ select (λ r. r.user_id == v) a.activity_log

pub SameTenant-refl : (v : ℕ) (a : Db) → SameTenant v a a
SameTenant-refl v a = record {
  accounts = refl;
  categories = refl;
  hashtags = refl;
  transactions = refl;
  inbox = refl;
  reconciliations = refl;
  activity_log = refl;
}
