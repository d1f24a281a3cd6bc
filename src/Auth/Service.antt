-- ===== src/Auth/Service.antt =====
-- app/modules/auth/service.py, and the passwords of app/core/security.py
use datacraft_backend.Prelude.{
  ℕ, ◌≡◌, Bool, true, false, not, List, [], ◌∷◌, Option, none, some, lookup, update, nat_eq,
  string_eq, option_eq, ◌==◌, String, filter, if◌then◌else◌,
}
use datacraft_backend.Core.Exceptions.{
  Error, app, key_error, account_locked, invalid_credentials, invalid_refresh_token,
}
use datacraft_backend.Core.Session.{Transaction, gets, one_or_none, modify, commit, new_id}
use datacraft_backend.Core.Action.{
  Action, pure, raise, or_raise, raise_if, on_session, on_store, ◌>>=◌, ◌>>◌,
}
use datacraft_backend.Core.Text.{Text, text_eq}
use datacraft_backend.Models.Identity.{User, is_locked, is_user_active}
use datacraft_backend.Models.Trail.{MetaValue, ActorType}
use datacraft_backend.Trail.Audit.{record_change}
use datacraft_backend.Auth.Redis.{TokenRedis}
use datacraft_backend.Auth.Tokens.{
  TokenType, Payload, Jwt, World, create_token, issue, consume, revoke, revoke_all_for_user,
}

-- passlib's argon2: a hash takes a salt, and a password is verified against a hash of it.
pub record Passwords : Type 0 where
  pub hash : ℕ → Text → Text
  pub verify : Text → Text → Bool
  pub verify-hash : (salt : ℕ) (password : Text) → verify password (hash salt password) ≡ true

-- `str.lower` and PostgreSQL's `lower`
pub record Lowering : Type 0 where
  pub lower : Text → Text
  pub sql_lower : Text → Text

-- ACCESS_TOKEN_EXPIRE_MINUTES and REFRESH_TOKEN_EXPIRE_MINUTES
pub record Settings : Type 0 where
  pub access_minutes : ℕ
  pub refresh_minutes : ℕ

abbrev pub has_email : Lowering → Text → ℕ × User → Bool
has_email texts email (_, u) = texts.sql_lower u.email == texts.lower email

abbrev pub time_or_null : Option ℕ → MetaValue
time_or_null none = MetaValue.null
time_or_null (some t) = MetaValue.count t

abbrev pub set_user : ℕ → (User → User) → Transaction (Unit {0})
set_user id f = modify λ db. record db { users = update id f db.users }

abbrev pub log_user : Option ℕ → String → ℕ → List (String × MetaValue) → Transaction (Unit {0})
log_user actor action id metadata =
    record_change actor ActorType.user action "USER" id [] [] metadata

abbrev pub is_refresh_type : TokenType → Bool
is_refresh_type TokenType.access = false
is_refresh_type TokenType.refresh = true

abbrev pub is_refresh : Payload → Bool
is_refresh p = elim p.token_type [ none ↦ false | some t ↦ is_refresh_type t ]

abbrev pub is_active_user : Option User → Bool
is_active_user none = false
is_active_user (some u) = is_user_active u.status

abbrev pub logged_in : ℕ → User → User
logged_in now u = record u { last_login_at = some now }

abbrev pub with_password : Text → ℕ → User → User
with_password hashed now u = record u {
  password_hash = hashed;
  last_password_changed_at = some now;
  require_password_reset = false;
}

module _ (redis : TokenRedis) (jwt : Jwt) (passwords : Passwords) (settings : Settings) where
  -- The attempt is recorded and committed before the error is raised.
  abbrev pub fail_login :
      {A : Type 0} → Option ℕ → ℕ → List (String × MetaValue) → Error → Action (World redis.Store) A
  fail_login actor id metadata e =
      on_session (log_user actor "user.login_failed" id metadata) >> (on_session commit >> raise e)

  abbrev pub new_access_token : ℕ → ℕ → World redis.Store → Text × World redis.Store
  new_access_token now id w =
      let ((token, jti), w') = create_token jwt now id TokenType.access settings.access_minutes w in
      (token, w')

  abbrev pub new_refresh_token : ℕ → ℕ → World redis.Store → Text × World redis.Store
  new_refresh_token now id w = issue redis jwt settings.refresh_minutes now id w

  abbrev pub log_in : ℕ → ℕ → Action (World redis.Store) (Text × Text × ℕ)
  log_in now id = do
    access_token ← on_store (new_access_token now id)
    refresh_token ← on_store (new_refresh_token now id)
    on_session (set_user id (logged_in now))
    on_session (log_user (some id) "user.login" id [])
    on_session commit
    pure (access_token, refresh_token, id)

  -- `login` after its query
  abbrev pub log_in_user :
      ℕ → Text → Text → Option (ℕ × User) → Action (World redis.Store) (Text × Text × ℕ)
  log_in_user now email password none = do
    id ← on_session new_id
    fail_login none id (("email", MetaValue.text email) ∷ []) (app invalid_credentials)
  log_in_user now email password (some (id, u)) =
      if not (passwords.verify password u.password_hash)
      then fail_login (some id) id (("email", MetaValue.text email) ∷ []) (app invalid_credentials)
      else if is_locked u.status
      then fail_login (some id) id (("reason", MetaValue.tag "account_locked") ∷ [])
          (app account_locked)
      else if not (is_user_active u.status)
      then fail_login (some id) id (("reason", MetaValue.tag "account_inactive") ∷ [])
          (app invalid_credentials)
      else log_in now id

  -- the two tokens and the user
  unfoldable pub login : Lowering → ℕ → Text → Text → Action (World redis.Store) (Text × Text × ℕ)
  unfolding record_change create_token
  login texts now email password = do
    rows ← on_session (gets (λ db. filter (has_email texts email) db.users))
    user ← on_session (one_or_none rows)
    log_in_user now email password user

  abbrev pub consume_token : ℕ → World redis.Store → Option ℕ × World redis.Store
  consume_token jti w =
      let (owner, s) = consume redis jti w.store in (owner, record w { store = s })

  unfoldable pub refresh : ℕ → Text → Action (World redis.Store) (Text × Text)
  unfolding create_token
  refresh now token = do
    payload ← or_raise (app invalid_refresh_token) (jwt.decode now token)
    raise_if (not (is_refresh payload)) (app invalid_refresh_token)
    jti ← or_raise key_error payload.jti
    owner ← on_store (consume_token jti)
    id ← or_raise (app invalid_refresh_token) owner
    user ← on_session (gets (λ db. lookup id db.users))
    raise_if (not (is_active_user user)) (app invalid_refresh_token)
    access_token ← on_store (new_access_token now id)
    refresh_token ← on_store (new_refresh_token now id)
    pure (access_token, refresh_token)

  -- the `jti` of a token that can be decoded
  abbrev pub jti_of : Option Payload → Option ℕ
  jti_of none = none
  jti_of (some p) = p.jti

  abbrev pub revoke_option : Option ℕ → ℕ → World redis.Store → Unit {0} × World redis.Store
  revoke_option none id w = (tt, w)
  revoke_option (some jti) id w = (tt, record w { store = revoke redis jti id w.store })

  unfoldable pub logout : ℕ → Text → ℕ → Action (World redis.Store) (Unit {0})
  unfolding record_change
  logout now token id = do
    on_store (revoke_option (jti_of (jwt.decode now token)) id)
    on_session (log_user (some id) "user.logout" id [])
    on_session commit

  abbrev pub revoke_user : ℕ → World redis.Store → Unit {0} × World redis.Store
  revoke_user id w = (tt, record w { store = revoke_all_for_user redis id w.store })

  -- of the user whose row the session holds
  unfoldable pub change_password :
      ℕ → ℕ → ℕ × User → Text → Text → Action (World redis.Store) (Unit {0})
  unfolding record_change
  change_password salt now (id, u) current_password new_password = do
    raise_if (not (passwords.verify current_password u.password_hash)) (app invalid_credentials)
    on_session (set_user id (with_password (passwords.hash salt new_password) now))
    on_store (revoke_user id)
    on_session (
        record_change (some id) ActorType.user "user.password_changed" "USER" id
          (("last_password_changed_at", time_or_null u.last_password_changed_at) ∷ [])
          (("last_password_changed_at", MetaValue.count now) ∷ []) [])
    on_session commit
