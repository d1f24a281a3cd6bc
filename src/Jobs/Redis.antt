-- ===== src/Jobs/Redis.antt =====
-- The Redis client of app/modules/jobs/service.py: what the service asks of it, and what the calls
-- promise. The client itself is a third-party package.
use datacraft_backend.Prelude.{ℕ, Bool, true, false, ◌≡◌, ◌≢◌, String}

-- `job:{job_id}:cancel_requested`
pub data Key : Type 0 where
  cancel_requested : ℕ → Key

pub record RedisClient : Type 1 where
  pub Store : Type 0
  pub set : Key → String → Store → Store
  pub delete : Key → Store → Store
  -- `bool(redis.get(key))`
  pub has : Key → Store → Bool
  pub has-set : (k : Key) (s : Store) → has k (set k "1" s) ≡ true
  pub has-set_other : (k j : Key) (s : Store) → k ≢ j → has j (set k "1" s) ≡ has j s
  pub has-delete : (k : Key) (s : Store) → has k (delete k s) ≡ false
