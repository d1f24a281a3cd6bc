-- ===== src/Auth/Tokens.antt =====
-- app/modules/auth/refresh_tokens.py and the tokens of app/core/security.py
use datacraft_backend.Prelude.{
  ℕ, ◌+◌, ◌*◌, ◌<◌, ◌≤◌, ◌≡◌, List, [], ◌∷◌, Option, none, some, nat_eq, string_eq, option_eq,
  if◌then◌else◌,
}
use datacraft_backend.Core.Text.{Text}
use datacraft_backend.Auth.Redis.{token_key, user_key, TokenRedis}

pub data TokenType : Type 0 where
  access refresh : TokenType

-- The claims of a token. One that was not made by `create_token` may lack the last two.
pub record Payload : Type 0 where
  pub sub : ℕ
  pub iat : ℕ
  pub exp : ℕ
  pub jti : Option ℕ
  pub token_type : Option TokenType

-- PyJWT with the key and the algorithm of the settings; times are in seconds. `decode` fails on a
-- token that was not signed so, or that has expired at the time of the call.
pub record Jwt : Type 0 where
  pub encode : Payload → Text
  pub decode : ℕ → Text → Option Payload
  pub decode-encode :
      (now : ℕ) (p : Payload) → p.iat ≤ now → now < p.exp → decode now (encode p) ≡ some p
  pub decode_at :
      (t u : ℕ) (token : Text) (p q : Payload)
      → decode t token ≡ some p
      → decode u token ≡ some q
      → p ≡ q

-- Redis, and the supply of `uuid.uuid4()` for token identifiers
pub record World (Store : Type 0) : Type 0 where
  pub store : Store
  pub next_jti : ℕ

abbrev pub claims : ℕ → ℕ → TokenType → ℕ → ℕ → Payload
claims now subject token_type minutes jti = record {
  sub = subject;
  iat = now;
  exp = now + minutes * 60;
  jti = some jti;
  token_type = some token_type;
}

module _ {Store : Type 0} where
  -- the encoded token and its identifier
  unfoldable pub create_token : Jwt → ℕ → ℕ → TokenType → ℕ → World Store → (Text × ℕ) × World Store
  create_token jwt now subject token_type minutes w = (
    (jwt.encode (claims now subject token_type minutes w.next_jti), w.next_jti),
    record w { next_jti = w.next_jti + 1 },
  )

-- `RefreshTokenStore`; `ttl` is REFRESH_TOKEN_EXPIRE_MINUTES.
module _ (redis : TokenRedis) where
  unfoldable pub issue : Jwt → ℕ → ℕ → ℕ → World redis.Store → Text × World redis.Store
  unfolding create_token
  issue jwt ttl now user_id w =
      let ((token, jti), w') = create_token jwt now user_id TokenType.refresh ttl w in
      let s1 = redis.hset jti user_id w'.store in
      let s2 = redis.expire (token_key jti) ttl s1 in
      let s3 = redis.sadd user_id jti s2 in
      let s4 = redis.expire (user_key user_id) ttl s3 in (token, record w' { store = s4 })

  unfoldable pub consume : ℕ → redis.Store → Option ℕ × redis.Store
  consume jti s = elim (redis.hget jti s) [
    | none ↦ (none, s)
    | some user_id ↦
        let (deleted, s') = redis.delete (token_key jti) s in
        if deleted then (some user_id, redis.srem user_id jti s') else (none, s')
  ]

  unfoldable pub revoke : ℕ → ℕ → redis.Store → redis.Store
  revoke jti user_id s = redis.srem user_id jti (redis.delete (token_key jti) s).1

  -- `redis.delete(*keys)`
  abbrev pub delete_tokens : List ℕ → redis.Store → redis.Store
  delete_tokens [] s = s
  delete_tokens (jti ∷ jtis) s = delete_tokens jtis (redis.delete (token_key jti) s).1

  unfoldable pub revoke_all_for_user : ℕ → redis.Store → redis.Store
  revoke_all_for_user user_id s =
      (redis.delete (user_key user_id) (delete_tokens (redis.smembers user_id s) s)).1
