-- ===== src/Auth/Sessions.antt =====
-- Refresh tokens over several calls of app/modules/auth/service.py: each is good for one refresh, and
-- for none after a logout or a change of the password.
use datacraft_backend.Prelude.{
  ℕ, ◌≡◌, ◌⊎◌, inl, inr, true, false, none, some, arith, lookup, update, nat_eq, string_eq,
  option_eq, ◌==◌, beq_refl, Bool-cases, Option-cases, pair_eq,
}
use datacraft_backend.Core.Database.{Database}
use datacraft_backend.Core.Exceptions.{app, invalid_credentials, invalid_refresh_token}
use datacraft_backend.Core.Session.{Result, ok, err}
use datacraft_backend.Core.Action.{run}
use datacraft_backend.Core.Text.{Text, text_eq}
use datacraft_backend.Models.Identity.{User}
use datacraft_backend.Auth.Redis.{TokenRedis}
use datacraft_backend.Auth.Tokens.{Payload, Jwt, World, create_token, revoke}
use datacraft_backend.Auth.Effects.{hget-issue, hget-revoke, consume-cases}
use datacraft_backend.Auth.Indexed.{IsIndexed, revoke_all_for_user_lem}
use datacraft_backend.Auth.Service.{
  Passwords, Settings, refresh, logout, change_password, is_refresh, is_active_user,
  new_access_token,
}

module _ (redis : TokenRedis) (jwt : Jwt) (passwords : Passwords) (settings : Settings) where
  abbrev pub refreshes :
      ℕ → Text → World redis.Store → Database → Result (Text × Text) × World redis.Store × Database
  refreshes now token w db = run (refresh redis jwt passwords settings now token) w db

  module _ (token : Text) (p : Payload) (j : ℕ) (named : p.jti ≡ some j) where
    -- A token that Redis does not hold is refused.
    pub spent_refused :
        (t now : ℕ) (w : World redis.Store) (db : Database)
        → jwt.decode t token ≡ some p
        → redis.hget j w.store ≡ none
        → refreshes now token w db ≡ (err (app invalid_refresh_token), w, db)
    unfolding refresh
    spent_refused t now w db decoded spent = elim (Option-cases (jwt.decode now token)) [
      | inl e ↦ ground (arith, e)
      | inr (q, e) ↦ elim (consume-cases redis j w.store) [
        | inl (_, none_left) ↦ ground (arith, e, jwt.decode_at t now token p q decoded e, none_left)
        | inr (u, held, _) ↦ absurd (ground (arith, held, spent))
      ]
    ]

    -- Whatever the outcome, a refresh with the token leaves Redis without it.
    refresh_spends :
        (now : ℕ) (w : World redis.Store) (db : Database)
        → IsIndexed redis w
        → jwt.decode now token ≡ some p
        → is_refresh p ≡ true
        → redis.hget j (refreshes now token w db).1.store ≡ none
    unfolding refresh create_token
    refresh_spends now w db h decoded kind = elim (consume-cases redis j w.store) [
      | inl (held, e) ↦ ground (arith, held, e)
      | inr (u, held, e) ↦
          let w1 : World redis.Store = record w { store = revoke redis j u w.store } in
          let w2 = (new_access_token redis jwt passwords settings now u w1).1 in
          elim (Bool-cases (is_active_user (lookup u db.users))) [
            | inl a ↦ ground (
              arith,
              e,
              a,
              h.issued j u held,
              hget-revoke redis j u j w.store,
              hget-issue redis jwt settings.refresh_minutes now u j w2,
            )
            | inr a ↦ ground (arith, e, a, hget-revoke redis j u j w.store)
          ]
    ]

    -- Where tokens are indexed, a refresh token of ours that can be decoded is refused by a
    -- refresh on what the first one left, at whatever time and whatever the first call answered.
    pub refresh_once :
        (t now : ℕ) (w : World redis.Store) (db : Database)
        → IsIndexed redis w
        → jwt.decode t token ≡ some p
        → is_refresh p ≡ true
        → let (_, w', db') = refreshes t token w db in
          refreshes now token w' db' ≡ (err (app invalid_refresh_token), w', db')
    refresh_once t now w db h decoded kind =
        spent_refused t now (refreshes t token w db).1 (refreshes t token w db).2 decoded
          (refresh_spends t w db h decoded kind)

    -- After a logout with a token that can be decoded, every refresh with it is refused.
    pub logout_ends :
        (t now id : ℕ) (w : World redis.Store) (db : Database)
        → jwt.decode t token ≡ some p
        → let (_, w', db') = run (logout redis jwt passwords settings t token id) w db in
          refreshes now token w' db' ≡ (err (app invalid_refresh_token), w', db')
    unfolding logout
    logout_ends t now id w db decoded =
        spent_refused t now _ _ decoded
          (ground (arith, decoded, hget-revoke redis j id j w.store, beq_refl j))

  module _ (salt now id : ℕ) (u : User) (current_password new_password : Text)
      (w : World redis.Store) (db : Database) where
    abbrev pub changes : Result (Unit {0}) × World redis.Store × Database
    changes =
        run
          (change_password redis jwt passwords settings salt now (id, u) current_password
            new_password)
          w db

    -- The current password was verified and the new one will be. The tokens of the user are refused
    -- on the store that the call leaves, and those of others are as they were.
    pub record PasswordChanged : Type 0 where
      pub verified : passwords.verify current_password u.password_hash ≡ true
      pub succeeded : changes.0 ≡ ok tt
      pub users_after :
          changes.2.users
          ≡ update id
              (λ x. record x {
                password_hash = passwords.hash salt new_password;
                last_password_changed_at = some now;
                require_password_reset = false;
              })
              db.users
      pub new_verified : passwords.verify new_password (passwords.hash salt new_password) ≡ true
      pub ended :
          (t later j : ℕ) (token : Text) (p : Payload) (db' : Database)
          → p.jti ≡ some j
          → jwt.decode t token ≡ some p
          → redis.hget j w.store ≡ some id
          → refreshes later token changes.1 db' ≡ (err (app invalid_refresh_token), changes.1, db')
      pub kept :
          (j v : ℕ)
          → redis.hget j w.store ≡ some v
          → (v == id) ≡ false
          → redis.hget j changes.1.store ≡ some v

    -- Where tokens are indexed, a change of the password either raises InvalidCredentialsError and
    -- changes nothing, or the current password was verified and the new one is stored. Then a refresh,
    -- on the store that the call leaves, with a token that was the user's is refused, and the tokens
    -- of others stay.
    pub change_password_effect :
        IsIndexed redis w → (changes ≡ (err (app invalid_credentials), w, db)) ⊎ PasswordChanged
    unfolding change_password
    change_password_effect h =
        elim (Bool-cases (passwords.verify current_password u.password_hash)) [
          | inl v ↦ inr (record {
            verified = v;
            succeeded = ground (arith, v);
            users_after = ground (arith, v);
            new_verified = passwords.verify-hash salt new_password;
            ended = λ t later j token p db' named decoded held.
                spent_refused token p j named t later changes.1 db' decoded
                  (ground (arith, v, held, beq_refl id, revoke_all_for_user_lem redis id j w h));
            kept = λ j x held other.
                ground (arith, v, held, other, revoke_all_for_user_lem redis id j w h);
          })
          | inr v ↦ inl (ground (arith, v))
        ]
