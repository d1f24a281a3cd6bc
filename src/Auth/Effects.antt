-- ===== src/Auth/Effects.antt =====
-- What the operations of app/modules/auth/refresh_tokens.py do to tokens and to the sets of them.
use datacraft_backend.Prelude.{
  ℕ, ◌≡◌, ◌⊎◌, inl, inr, refl, ◌∙◌, not, ◌&&◌, ◌||◌, List, [], ◌∷◌, none, some, arith, nat_eq,
  string_eq, option_eq, ◌==◌, Option-cases, if◌then◌else◌, member,
}
use datacraft_backend.Auth.Redis.{token_key, TokenRedis}
use datacraft_backend.Auth.Tokens.{
  Jwt, World, issue, consume, revoke, delete_tokens, revoke_all_for_user,
}

module _ (redis : TokenRedis) where
  -- The laws that the proofs below share.
  hget-delete_tokens :
      (i : ℕ) (js : List ℕ) (s : redis.Store)
      → redis.hget i (delete_tokens redis js s) ≡ (if member i js then none else redis.hget i s)
  hget-delete_tokens i [] s = refl
  hget-delete_tokens i (j ∷ js) s = ground (
    arith,
    hget-delete_tokens i js (redis.delete (token_key j) s).1,
    redis.hget-delete_token i j s,
  )

  smembers-delete_tokens :
      (v : ℕ) (js : List ℕ) (s : redis.Store)
      → redis.smembers v (delete_tokens redis js s) ≡ redis.smembers v s
  smembers-delete_tokens v [] s = refl
  smembers-delete_tokens v (j ∷ js) s =
      smembers-delete_tokens v js (redis.delete (token_key j) s).1
      ∙ redis.smembers-delete_token v j s

  -- what each operation does to a token and to a set
  pub hget-issue :
      (jwt : Jwt) (ttl now u i : ℕ) (w : World redis.Store)
      → redis.hget i (issue redis jwt ttl now u w).1.store
        ≡ (if i == w.next_jti then some u else redis.hget i w.store)
  unfolding issue
  hget-issue jwt ttl now u i w =
      rw (redis.hget-expire, redis.hget-sadd, redis.hget-expire, redis.hget-hset) refl

  pub smembers-issue :
      (jwt : Jwt) (ttl now u i v : ℕ) (w : World redis.Store)
      → member i (redis.smembers v (issue redis jwt ttl now u w).1.store)
        ≡ ((v == u && i == w.next_jti) || member i (redis.smembers v w.store))
  unfolding issue
  smembers-issue jwt ttl now u i v w =
      rw (redis.smembers-expire, redis.smembers-sadd, redis.smembers-expire, redis.smembers-hset)
        refl

  pub hget-revoke :
      (j u i : ℕ) (s : redis.Store)
      → redis.hget i (revoke redis j u s) ≡ (if i == j then none else redis.hget i s)
  unfolding revoke
  hget-revoke j u i s = rw (redis.hget-srem, redis.hget-delete_token) refl

  pub smembers-revoke :
      (j u i v : ℕ) (s : redis.Store)
      → member i (redis.smembers v (revoke redis j u s))
        ≡ (not (v == u && i == j) && member i (redis.smembers v s))
  unfolding revoke
  smembers-revoke j u i v s = rw (redis.smembers-srem, redis.smembers-delete_token) refl

  pub hget-revoke_all_for_user :
      (u i : ℕ) (s : redis.Store)
      → redis.hget i (revoke_all_for_user redis u s)
        ≡ (if member i (redis.smembers u s) then none else redis.hget i s)
  unfolding revoke_all_for_user
  hget-revoke_all_for_user u i s = rw (redis.hget-delete_user, hget-delete_tokens) refl

  pub smembers-revoke_all_for_user :
      (u v : ℕ) (s : redis.Store)
      → redis.smembers v (revoke_all_for_user redis u s)
        ≡ (if v == u then [] else redis.smembers v s)
  unfolding revoke_all_for_user
  smembers-revoke_all_for_user u v s = rw (redis.smembers-delete_user, smembers-delete_tokens) refl

  -- A live token is consumed as it is revoked; any other leaves the store as it was.
  pub consume-cases :
      (j : ℕ) (s : redis.Store)
      → ((redis.hget j s ≡ none) × (consume redis j s ≡ (none, s)))
        ⊎ ((u : ℕ) × (redis.hget j s ≡ some u) × (consume redis j s ≡ (some u, revoke redis j u s)))
  unfolding consume revoke
  consume-cases j s = elim (Option-cases (redis.hget j s)) [
    | inl e ↦ inl (e, ground (arith, e))
    | inr (u, e) ↦ inr (u, e, ground (arith, e, redis.delete_was_there j s))
  ]
