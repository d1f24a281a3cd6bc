-- ===== src/Auth/Login.antt =====
-- What `login` of app/modules/auth/service.py does, branch by branch.
use datacraft_backend.Prelude.{
  ℕ, ◌≡◌, ◌⊎◌, inl, inr, refl, ap, ◌∙◌, true, false, List, [], ◌∷◌, ◌++◌, Option, none, some, arith,
  Table, update, nat_eq, string_eq, option_eq, beq_refl, Bool-cases, String, filter, pair_eq,
}
use datacraft_backend.Core.Database.{Database}
use datacraft_backend.Core.Exceptions.{
  Error, app, multiple_results, account_locked, invalid_credentials,
}
use datacraft_backend.Core.Session.{Result, ok, err}
use datacraft_backend.Core.Action.{run}
use datacraft_backend.Core.Text.{Text, text_eq}
use datacraft_backend.Models.Identity.{User, UserStatus, is_locked, is_user_active}
use datacraft_backend.Models.Trail.{AuditEvent, MetaValue, ActorType}
use datacraft_backend.Auth.Redis.{TokenRedis}
use datacraft_backend.Auth.Tokens.{Jwt, World}
use datacraft_backend.Auth.Effects.{hget-issue}
use datacraft_backend.Auth.Service.{
  Passwords, Lowering, Settings, has_email, login, new_access_token, new_refresh_token,
}

module _ (redis : TokenRedis) (jwt : Jwt) (passwords : Passwords) (settings : Settings)
    (texts : Lowering) (now : ℕ) (email password : Text) (w : World redis.Store)
    (db : Database) where
  abbrev pub Outcome : Type 0
  Outcome = Result (Text × Text × ℕ) × World redis.Store × Database

  abbrev pub user_event : Option ℕ → String → ℕ → List (String × MetaValue) → AuditEvent
  user_event actor action id metadata = record {
    actor_id = actor;
    actor_type = ActorType.user;
    action = action;
    entity_type = "USER";
    entity_id = id;
    before_value = [];
    after_value = [];
    audit_metadata = metadata;
  }

  -- The attempt is refused and recorded, no token is issued and no user changes.
  abbrev pub Refused : Outcome → Type 0
  Refused (r, w', db') =
      (e : Error) × (r ≡ err e)
      × (w' ≡ w)
      × (db'.users ≡ db.users)
      × (actor : Option ℕ) × (id : ℕ) × (metadata : List (String × MetaValue)) × (db'.audit_events
          ≡ db.audit_events ++ user_event actor "user.login_failed" id metadata ∷ [])

  -- the tokens that are made for a user, and what they leave of Redis
  abbrev pub access_made : ℕ → Text × World redis.Store
  access_made id = new_access_token redis jwt passwords settings now id w

  abbrev pub refresh_made : ℕ → Text × World redis.Store
  refresh_made id = new_refresh_token redis jwt passwords settings now id (access_made id).1

  -- One user has the address, the password is verified, the user is active, and the refresh token
  -- that is returned is live and the user's.
  pub record Admitted (outcome : Outcome) : Type 0 where
    pub id : ℕ
    pub user : User
    pub one : filter (has_email texts email) db.users ≡ (id, user) ∷ []
    pub verified : passwords.verify password user.password_hash ≡ true
    pub active : is_user_active user.status ≡ true
    pub tokens : outcome.0 ≡ ok ((access_made id).0, (refresh_made id).0, id)
    pub live : redis.hget (access_made id).1.next_jti outcome.1.store ≡ some id
    pub users_after :
        outcome.2.users ≡ update id (λ u. record u { last_login_at = some now }) db.users
    pub audited :
        outcome.2.audit_events ≡ db.audit_events ++ user_event (some id) "user.login" id [] ∷ []

  abbrev pub logs_in : Outcome
  logs_in = run (login redis jwt passwords settings texts now email password) w db

  admit :
      (id : ℕ) (u : User)
      → filter (has_email texts email) db.users ≡ (id, u) ∷ []
      → passwords.verify password u.password_hash ≡ true
      → is_user_active u.status ≡ true
      → is_locked u.status ≡ false
      → Admitted logs_in
  unfolding login
  admit id u one v a l = record {
    id = id;
    user = u;
    one = one;
    verified = v;
    active = a;
    tokens = ground (arith, one, v, a, l);
    live =
        let made : logs_in.1 ≡ (refresh_made id).1 = ground (arith, one, v, a, l) in
        ap (λ (x : World redis.Store). redis.hget (access_made id).1.next_jti x.store) made
        ∙ (hget-issue redis jwt settings.refresh_minutes now id (access_made id).1.next_jti
              (access_made id).1
            ∙ ground (arith, beq_refl (access_made id).1.next_jti));
    users_after = ground (arith, one, v, a, l);
    audited = ground (arith, one, v, a, l);
  }

  locked_inactive : (u : User) → is_user_active u.status ≡ true → is_locked u.status ≡ false
  locked_inactive u a = go u.status a
    where
      go : (s : UserStatus) → is_user_active s ≡ true → is_locked s ≡ false
      go UserStatus.active h = refl
      go UserStatus.inactive h = cc
      go UserStatus.locked h = cc

  login_user :
      (id : ℕ) (u : User)
      → filter (has_email texts email) db.users ≡ (id, u) ∷ []
      → Refused logs_in ⊎ Admitted logs_in
  unfolding login
  login_user id u one = elim (Bool-cases (passwords.verify password u.password_hash)) [
    | inl v ↦ elim (Bool-cases (is_user_active u.status)) [
      | inl a ↦ inr (admit id u one v a (locked_inactive u a))
      | inr a ↦ elim (Bool-cases (is_locked u.status)) [
        | inl l ↦ inl (
          app account_locked,
          ground (arith, one, v, a, l),
          ground (arith, one, v, a, l),
          ground (arith, one, v, a, l),
          some id,
          id,
          ("reason", MetaValue.tag "account_locked") ∷ [],
          ground (arith, one, v, a, l),
        )
        | inr l ↦ inl (
          app invalid_credentials,
          ground (arith, one, v, a, l),
          ground (arith, one, v, a, l),
          ground (arith, one, v, a, l),
          some id,
          id,
          ("reason", MetaValue.tag "account_inactive") ∷ [],
          ground (arith, one, v, a, l),
        )
      ]
    ]
    | inr v ↦ inl (
      app invalid_credentials,
      ground (arith, one, v),
      ground (arith, one, v),
      ground (arith, one, v),
      some id,
      id,
      ("email", MetaValue.text email) ∷ [],
      ground (arith, one, v),
    )
  ]

  login_rows :
      (rows : Table User)
      → filter (has_email texts email) db.users ≡ rows
      → (logs_in ≡ (err multiple_results, w, db)) ⊎ (Refused logs_in ⊎ Admitted logs_in)
  unfolding login
  login_rows [] none_found = inr (
      inl (
        app invalid_credentials,
        ground arith,
        ground arith,
        ground arith,
        none,
        db.next_id,
        ("email", MetaValue.text email) ∷ [],
        ground arith,
      ))
  login_rows ((id, u) ∷ []) one = inr (login_user id u one)
  login_rows (a ∷ b ∷ rows) two = inl (ground arith)

  -- A login raises MultipleResultsFound and changes nothing; or it raises, issues no token, changes
  -- no user and commits one `user.login_failed` event; or exactly one user has the address, the
  -- password is verified against its hash, the user is active, and the call returns an access token
  -- and a live refresh token of that user, sets its last login and commits one `user.login` event.
  pub login_effect :
      (logs_in ≡ (err multiple_results, w, db)) ⊎ (Refused logs_in ⊎ Admitted logs_in)
  login_effect = login_rows (filter (has_email texts email) db.users) refl
