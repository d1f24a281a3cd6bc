-- ===== src/Users/Service.antt =====
-- app/modules/users/service.py
use datacraft_backend.Prelude.{
  ℕ, Bool, true, false, not, ◌&&◌, ◌||◌, List, [], ◌∷◌, ◌++◌, map, Option, none, some, lookup, add,
  nat_eq, string_eq, option_eq, ◌==◌, any, String, filter, if◌then◌else◌, is_some, nodup, dedup,
  subset,
}
use datacraft_backend.Core.Exceptions.{app, integrity_error, email_already_exists, user_not_found}
use datacraft_backend.Core.Session.{
  Transaction, Context, gets, one_or_none, modify, commit, new_id, pure, or_raise, raise_if, ◌>>=◌,
  ◌>>◌,
}
use datacraft_backend.Core.Text.{Text, text_eq}
use datacraft_backend.Models.Identity.{UserStatus, User, UserRole}
use datacraft_backend.Models.Trail.{MetaValue, ActorType}
use datacraft_backend.Trail.Audit.{record_change}
use datacraft_backend.Rules.Service.{given, given_text, text_or_null}
use datacraft_backend.Auth.Service.{Passwords, Lowering, has_email, set_user}

unfoldable pub get_user : ℕ → Transaction User
get_user id = do found ← gets (λ db. lookup id db.users); or_raise (app user_not_found) found

abbrev pub role_ids_of : ℕ → List UserRole → List ℕ
role_ids_of user_id rows = map (λ r. r.role_id) (filter (λ r. r.user_id == user_id) rows)

abbrev pub role_rows : Context → ℕ → List ℕ → List UserRole
role_rows c user_id role_ids =
    map (λ role_id. record { user_id = user_id; role_id = role_id; assigned_by = some c.actor })
      role_ids

-- The primary key of user_roles: a role that is given twice breaks it at the next flush.
abbrev pub add_roles : Context → ℕ → List ℕ → Transaction (Unit {0})
add_roles c user_id role_ids =
    raise_if (not (nodup role_ids)) integrity_error
    >> modify (λ db. record db { user_roles = db.user_roles ++ role_rows c user_id role_ids })

-- `_assign_roles`
abbrev pub assign_roles : Context → ℕ → List ℕ → Transaction (Unit {0})
assign_roles c user_id [] = pure tt
assign_roles c user_id (r ∷ role_ids) =
    add_roles c user_id (r ∷ role_ids)
    >> record_change (some c.actor) ActorType.user "user.role_assigned" "USER" user_id []
        (("role_ids", MetaValue.ids (r ∷ role_ids)) ∷ []) []

-- `set(a) == set(b)`
abbrev pub is_same_set : List ℕ → List ℕ → Bool
is_same_set a b = subset a b && subset b a

-- `_replace_roles`
abbrev pub replace_roles : Context → ℕ → List ℕ → Transaction (Unit {0})
replace_roles c user_id role_ids = do
  existing ← gets (λ db. role_ids_of user_id db.user_roles)
  if is_same_set existing role_ids then pure tt else (do
    modify (λ db. record db { user_roles = filter (λ r. not (r.user_id == user_id)) db.user_roles })
    add_roles c user_id role_ids
    record_change (some c.actor) ActorType.user "user.role_assigned" "USER" user_id
        (("role_ids", MetaValue.ids (dedup existing)) ∷ [])
        (("role_ids", MetaValue.ids (dedup role_ids)) ∷ []) [])

-- the unique indexes on lower(email) and, where it is given, on username
abbrev pub is_same_username : Option Text → Option Text → Bool
is_same_username none b = false
is_same_username (some a) b = some a == b

abbrev pub is_taken : Lowering → Text → Option Text → ℕ × User → Bool
is_taken texts email username (_, u) =
    texts.sql_lower u.email == texts.sql_lower email || is_same_username username u.username

abbrev pub new_user : Context → Text → Option Text → Option Text → Text → User
new_user c email username full_name password_hash = record {
  email = email;
  username = username;
  full_name = full_name;
  password_hash = password_hash;
  status = UserStatus.active;
  require_password_reset = true;
  last_login_at = none;
  last_password_changed_at = none;
  created_by = some c.actor;
  updated_at = none;
}

unfoldable pub create_user :
    Lowering
    → Passwords
    → ℕ
    → Context
    → Text
    → Option Text
    → Option Text
    → Text
    → List ℕ
    → Transaction ℕ
unfolding record_change
create_user texts passwords salt c email username full_name password role_ids = do
  rows ← gets (λ db. filter (has_email texts email) db.users)
  existing ← one_or_none rows
  raise_if (is_some existing) (app email_already_exists)
  id ← new_id
  taken ← gets (λ db. any (is_taken texts email username) db.users)
  raise_if taken integrity_error
  modify (λ db. record db {
    users = add id (new_user c email username full_name (passwords.hash salt password)) db.users;
  })
  assign_roles c id role_ids
  record_change (some c.actor) ActorType.user "user.created" "USER" id []
      (("email", MetaValue.text email)
        ∷ ("username", text_or_null username)
        ∷ ("role_ids", MetaValue.ids role_ids)
        ∷ [])
      []
  commit
  pure id

abbrev pub status_name : UserStatus → String
status_name UserStatus.active = "ACTIVE"
status_name UserStatus.inactive = "INACTIVE"
status_name UserStatus.locked = "LOCKED"

abbrev pub user_summary : User → List (String × MetaValue)
user_summary u =
    ("full_name", text_or_null u.full_name)
    ∷ ("username", text_or_null u.username)
    ∷ ("status", MetaValue.tag (status_name u.status))
    ∷ []

abbrev pub updated_user : Context → Option Text → Option Text → Option UserStatus → User → User
updated_user c full_name username status u = record u {
  full_name = given_text full_name u.full_name;
  username = given_text username u.username;
  status = given status u.status;
  updated_at = some c.now;
}

-- another user has the username
abbrev pub has_username : ℕ → Option Text → ℕ × User → Bool
has_username id username (k, u) = not (k == id) && is_same_username username u.username

abbrev pub replace_given_roles : Context → ℕ → Option (List ℕ) → Transaction (Unit {0})
replace_given_roles c id none = pure tt
replace_given_roles c id (some role_ids) = replace_roles c id role_ids

unfoldable pub update_user :
    Context
    → ℕ
    → Option Text
    → Option Text
    → Option UserStatus
    → Option (List ℕ)
    → Transaction (Unit {0})
unfolding get_user record_change
update_user c id full_name username status role_ids = do
  user ← get_user id
  taken ← gets (λ db. any (has_username id username) db.users)
  raise_if taken integrity_error
  set_user id (updated_user c full_name username status)
  replace_given_roles c id role_ids
  record_change (some c.actor) ActorType.user "user.updated" "USER" id (user_summary user)
      (user_summary (updated_user c full_name username status user)) []
  commit

-- `new_password or secrets.token_urlsafe(12)`
abbrev pub chosen_password : Option Text → Text → Text
chosen_password none fresh = fresh
chosen_password (some []) fresh = fresh
chosen_password (some (x ∷ xs)) fresh = x ∷ xs

abbrev pub reset_user : Text → Context → User → User
reset_user hashed c u = record u {
  password_hash = hashed;
  require_password_reset = true;
  last_password_changed_at = some c.now;
  updated_at = some c.now;
}
