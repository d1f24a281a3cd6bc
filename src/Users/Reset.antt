-- ===== src/Users/Reset.antt =====
-- app/modules/users/service.py: `reset_password`, which writes to the token store too
use datacraft_backend.Prelude.{
  ℕ, ◌≡◌, ◌⊎◌, inl, inr, refl, ap, ◌∙◌, true, false, [], ◌∷◌, Option, none, some, arith, lookup,
  lookup-update, nat_eq, string_eq, option_eq, ◌==◌, beq_refl, if◌then◌else◌, is_some, is_empty,
  pair_eq,
}
use datacraft_backend.Core.Database.{Database}
use datacraft_backend.Core.Session.{Context, ok}
use datacraft_backend.Core.Action.{Action, pure, on_session, on_store, run, ◌>>◌}
use datacraft_backend.Core.Session.{commit}
use datacraft_backend.Core.Text.{Text}
use datacraft_backend.Models.Identity.{User}
use datacraft_backend.Models.Trail.{MetaValue}
use datacraft_backend.Auth.Redis.{TokenRedis}
use datacraft_backend.Auth.Tokens.{World, revoke_all_for_user}
use datacraft_backend.Auth.Indexed.{IsIndexed, revoke_all_for_user_lem}
use datacraft_backend.Auth.Service.{Passwords, set_user, log_user}
use datacraft_backend.Trail.Audit.{record_change}
use datacraft_backend.Users.Service.{get_user, chosen_password, reset_user}

module _ (redis : TokenRedis) (passwords : Passwords) where
  abbrev end_sessions : ℕ → World redis.Store → Unit {0} × World redis.Store
  end_sessions id w = (tt, record w { store = revoke_all_for_user redis id w.store })

  -- `fresh` is `secrets.token_urlsafe(12)`.
  unfoldable pub reset_password :
      ℕ → Text → Context → ℕ → Option Text → Action (World redis.Store) Text
  unfolding get_user record_change
  reset_password salt fresh c id new_password = do
    on_session (get_user id)
    on_session
        (set_user id (reset_user (passwords.hash salt (chosen_password new_password fresh)) c))
    on_store (end_sessions id)
    on_session (
        log_user (some c.actor) "user.password_changed" id (
          ("reset_by", MetaValue.id c.actor)
          ∷ (
            "generated",
            if is_some new_password then MetaValue.tag "false" else MetaValue.tag "true",
          )
          ∷ []))
    on_session commit
    pure (chosen_password new_password fresh)

  -- The given password, or a new one where none or an empty one is given.
  abbrev pub IsChosen : Option Text → Text → Text → Type 0
  IsChosen new_password fresh password =
      ((new_password ≡ some password) × (is_empty password ≡ false))
      ⊎ (((new_password ≡ none) ⊎ (new_password ≡ some [])) × (password ≡ fresh))

  chosen_password-IsChosen :
      (new_password : Option Text) (fresh : Text)
      → IsChosen new_password fresh (chosen_password new_password fresh)
  chosen_password-IsChosen none fresh = inr (inl refl, refl)
  chosen_password-IsChosen (some []) fresh = inr (inr refl, refl)
  chosen_password-IsChosen (some (x ∷ xs)) fresh = inl (refl, refl)

  -- Where tokens are indexed, the reset of the password of a user that is found returns a password,
  -- the given one or, where none or an empty one is given, the new one. It stores its hash, asks the
  -- user to change it, keeps the other columns of the user, and ends exactly the tokens of the user.
  pub reset_password_effect :
      (salt : ℕ) (fresh : Text) (c : Context) (id : ℕ) (new_password : Option Text)
      (w : World redis.Store) (db : Database) (u : User)
      → IsIndexed redis w
      → lookup id db.users ≡ some u
      → let (r, w', db') = run (reset_password salt fresh c id new_password) w db in
        (password : Text) × (r ≡ ok password)
        × IsChosen new_password fresh password
        × (lookup id db'.users
            ≡ some (record u {
              password_hash = passwords.hash salt password;
              require_password_reset = true;
              last_password_changed_at = some c.now;
              updated_at = some c.now;
            }))
        × ((j : ℕ)
            → redis.hget j w'.store
              ≡ (if redis.hget j w.store == some id then none else redis.hget j w.store))
  unfolding reset_password
  reset_password_effect salt fresh c id new_password w db u h known = (
    chosen_password new_password fresh,
    ground arith,
    chosen_password-IsChosen new_password fresh,
    ground (
      arith,
      lookup-update id id (reset_user (passwords.hash salt (chosen_password new_password fresh)) c)
          db.users,
      beq_refl id,
    ),
    λ j.
        let after : (run (reset_password salt fresh c id new_password) w db).1
            ≡ (end_sessions id w).1 =
          ground arith in
        ap (λ (x : World redis.Store). redis.hget j x.store) after
        ∙ revoke_all_for_user_lem redis id j w h,
  )
