-- ===== src/Auth/Redis.antt =====
-- The Redis client of app/modules/auth/refresh_tokens.py: what the token store asks of it, and what
-- the commands promise. The client itself is a third-party package.
use datacraft_backend.Prelude.{
  ℕ, ◌≡◌, Bool, not, ◌&&◌, ◌||◌, List, [], Option, none, some, nat_eq, string_eq, option_eq, ◌==◌,
  if◌then◌else◌, is_some, member,
}

-- `refresh_token:{jti}` and `user_refresh_tokens:{user_id}`
pub data Key : Type 0 where
  token_key user_key : ℕ → Key

pub record TokenRedis : Type 1 where
  pub Store : Type 0
  -- the field `user_id` of the hash under a token's key
  pub hset : ℕ → ℕ → Store → Store
  pub hget : ℕ → Store → Option ℕ
  -- the set under a user's key
  pub sadd : ℕ → ℕ → Store → Store
  pub srem : ℕ → ℕ → Store → Store
  pub smembers : ℕ → Store → List ℕ
  -- whether the key was there, and the store without it
  pub delete : Key → Store → Bool × Store
  -- a time to live, in minutes
  pub expire : Key → ℕ → Store → Store
  pub hget-hset :
      (i j u : ℕ) (s : Store) → hget i (hset j u s) ≡ (if i == j then some u else hget i s)
  pub hget-sadd : (i u j : ℕ) (s : Store) → hget i (sadd u j s) ≡ hget i s
  pub hget-srem : (i u j : ℕ) (s : Store) → hget i (srem u j s) ≡ hget i s
  pub hget-delete_token :
      (i j : ℕ) (s : Store)
      → hget i (delete (token_key j) s).1 ≡ (if i == j then none else hget i s)
  pub hget-delete_user : (i u : ℕ) (s : Store) → hget i (delete (user_key u) s).1 ≡ hget i s
  pub hget-expire : (i n : ℕ) (k : Key) (s : Store) → hget i (expire k n s) ≡ hget i s
  pub delete_was_there : (j : ℕ) (s : Store) → (delete (token_key j) s).0 ≡ is_some (hget j s)
  pub smembers-hset : (v j u : ℕ) (s : Store) → smembers v (hset j u s) ≡ smembers v s
  pub smembers-sadd :
      (i v u j : ℕ) (s : Store)
      → member i (smembers v (sadd u j s)) ≡ ((v == u && i == j) || member i (smembers v s))
  pub smembers-srem :
      (i v u j : ℕ) (s : Store)
      → member i (smembers v (srem u j s)) ≡ (not (v == u && i == j) && member i (smembers v s))
  pub smembers-delete_token :
      (v j : ℕ) (s : Store) → smembers v (delete (token_key j) s).1 ≡ smembers v s
  pub smembers-delete_user :
      (v u : ℕ) (s : Store)
      → smembers v (delete (user_key u) s).1 ≡ (if v == u then [] else smembers v s)
  pub smembers-expire : (v n : ℕ) (k : Key) (s : Store) → smembers v (expire k n s) ≡ smembers v s
