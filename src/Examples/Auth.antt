-- ===== src/Examples/Auth.antt =====
-- Two users with a live token each, Redis as two functions, and tokens as lists of their claims.
use datacraft_backend.Prelude.{
  ℕ, ◌≤◌, ◌≡◌, ◌⊎◌, refl, Bool, true, false, not, ◌&&◌, List, [], ◌∷◌, map, Option, none, some,
  arith, lookup, length, nat_eq, string_eq, option_eq, ◌==◌, beq_refl, eq_of_beq, String, filter,
  if◌then◌else◌, is_some, is_empty, member-filter, ltb, leb, suc, zero, pair_eq,
}
use datacraft_backend.Core.Database.{Database}
use datacraft_backend.Core.Exceptions.{
  app, multiple_results, invalid_credentials, invalid_refresh_token,
}
use datacraft_backend.Core.Session.{ok, err}
use datacraft_backend.Core.Text.{Text, text_eq, codes}
use datacraft_backend.Models.Identity.{UserStatus, User}
use datacraft_backend.Auth.Redis.{Key, token_key, user_key, TokenRedis}
use datacraft_backend.Auth.Tokens.{
  TokenType, Payload, Jwt, World, consume, claims, create_token, issue, revoke_all_for_user,
}
use datacraft_backend.Auth.Indexed.{
  revoke_all_call, IsIndexed, after_token_call, after_token_call-IsIndexed,
}
use datacraft_backend.Auth.Race.{
  reading, refused, won, Event, client, other, has_token, race, race_one, client_step, consume_step,
}
use datacraft_backend.Auth.Service.{Passwords, Lowering, Settings, login, refresh, change_password}
use datacraft_backend.Auth.Login.{Refused, Admitted, logs_in, login_effect}
use datacraft_backend.Auth.Sessions.{
  refreshes, refresh_once, changes, PasswordChanged, change_password_effect,
}
use datacraft_backend.Core.Action.{run}
use datacraft_backend.Auth.Winner.{HasWinner, readers, race_winner}
use datacraft_backend.Users.Reset.{reset_password, reset_password_effect, IsChosen}
use datacraft_backend.Examples.Data.{reviewer, empty_db}

abbrev Memory : Type 0
Memory = (ℕ → Option ℕ) × (ℕ → List ℕ)

abbrev put : {A : Type 0} → ℕ → A → (ℕ → A) → ℕ → A
put k a f i = if i == k then a else f i

abbrev without : ℕ → List ℕ → List ℕ
without j xs = filter (λ i. not (i == j)) xs

abbrev remove : Key → Memory → Bool × Memory
remove (token_key j) (hashes, sets) = (is_some (hashes j), (put j none hashes, sets))
remove (user_key u) (hashes, sets) = (not (is_empty (sets u)), (hashes, put u [] sets))

abbrev redis : TokenRedis
redis = record {
  Store = Memory;
  hset = λ j u s. (put j (some u) s.0, s.1);
  hget = λ j s. s.0 j;
  sadd = λ u j s. (s.0, put u (j ∷ s.1 u) s.1);
  srem = λ u j s. (s.0, put u (without j (s.1 u)) s.1);
  smembers = λ u s. s.1 u;
  delete = remove;
  expire = λ k n s. s;
  hget-hset = λ i j u s. refl;
  hget-sadd = λ i u j s. refl;
  hget-srem = λ i u j s. refl;
  hget-delete_token = λ i j s. refl;
  hget-delete_user = λ i u s. refl;
  hget-expire = λ i n k s. refl;
  delete_was_there = λ j s. refl;
  smembers-hset = λ v j u s. refl;
  smembers-sadd = λ i v u j s. ground (arith, eq_of_beq v u);
  smembers-srem =
      λ i v u j s. ground (arith, eq_of_beq v u, member-filter i (λ x. not (x == j)) (s.1 u));
  smembers-delete_token = λ v j s. refl;
  smembers-delete_user = λ v u s. refl;
  smembers-expire = λ v n k s. refl;
}

abbrev jti_code : Option ℕ → ℕ
jti_code none = 0
jti_code (some j) = suc j

abbrev type_code : Option TokenType → ℕ
type_code none = 0
type_code (some TokenType.access) = 1
type_code (some TokenType.refresh) = 2

abbrev jti_of_code : ℕ → Option ℕ
jti_of_code zero = none
jti_of_code (suc j) = some j

abbrev type_of_code : ℕ → Option TokenType
type_of_code zero = none
type_of_code (suc zero) = some TokenType.access
type_of_code (suc (suc n)) = some TokenType.refresh

abbrev encode : Payload → Text
encode p = p.sub ∷ p.iat ∷ p.exp ∷ jti_code p.jti ∷ type_code p.token_type ∷ []

-- the claims of a token, whatever the time
abbrev read : Text → Option Payload
read (u ∷ i ∷ e ∷ j ∷ t ∷ []) =
    some (record { sub = u; iat = i; exp = e; jti = jti_of_code j; token_type = type_of_code t })
read _ = none

abbrev is_timely : ℕ → Payload → Bool
is_timely now p = leb p.iat now && ltb now p.exp

abbrev if_timely : ℕ → Option Payload → Option Payload
if_timely now none = none
if_timely now (some p) = if is_timely now p then some p else none

jti_of_code-jti_code : (o : Option ℕ) → jti_of_code (jti_code o) ≡ o
jti_of_code-jti_code none = refl
jti_of_code-jti_code (some j) = refl

type_of_code-type_code : (o : Option TokenType) → type_of_code (type_code o) ≡ o
type_of_code-type_code none = refl
type_of_code-type_code (some TokenType.access) = refl
type_of_code-type_code (some TokenType.refresh) = refl

read-encode : (p : Payload) → read (encode p) ≡ some p
read-encode p = ground (arith, jti_of_code-jti_code p.jti, type_of_code-type_code p.token_type)

if_timely_inversion :
    (now : ℕ) (o : Option Payload) (p : Payload) → if_timely now o ≡ some p → o ≡ some p
if_timely_inversion now none p h = cc
if_timely_inversion now (some q) p h = ground arith

abbrev jwt : Jwt
jwt = record {
  encode = encode;
  decode = λ now t. if_timely now (read t);
  decode-encode = λ now p i e. ground (arith, read-encode p);
  decode_at = λ t u token p q a b.
      ground
        (arith, if_timely_inversion t (read token) p a, if_timely_inversion u (read token) q b);
}

abbrev verify : Text → Text → Bool
verify password [] = false
verify password (salt ∷ rest) = password == rest

abbrev passwords : Passwords
passwords = record {
  hash = λ salt password. salt ∷ password;
  verify = verify;
  verify-hash = λ salt password. beq_refl password;
}

abbrev texts : Lowering
texts = record { lower = λ t. t; sql_lower = λ t. t }

abbrev settings : Settings
settings = record { access_minutes = 15; refresh_minutes = 10080 }

abbrev user_with : String → Text → User
user_with email password = record {
  email = codes email;
  username = none;
  full_name = none;
  password_hash = 1 ∷ password;
  status = UserStatus.active;
  require_password_reset = false;
  last_login_at = none;
  last_password_changed_at = none;
  created_by = none;
  updated_at = none;
}

abbrev ada : User
ada = user_with "ada@example.org" (codes "secret")

abbrev users_db : Database
users_db = record empty_db {
  users = (7, ada) ∷ (8, user_with "bob@example.org" (codes "hidden")) ∷ [];
}

-- token 1 is of user 7, and token 2 of user 8
abbrev world : World Memory
world = record {
  store = (put 1 (some 7) (put 2 (some 8) (λ _. none)), put 7 (1 ∷ []) (put 8 (2 ∷ []) (λ _. [])));
  next_jti = 3;
}

world-IsIndexed : IsIndexed redis world
world-IsIndexed = record {
  listed = λ j u live. ground arith;
  owned = λ j u v listed live. ground arith;
  issued = λ j u live. ground arith;
  issued_member = λ j u listed. ground arith;
}

after_token_call-IsIndexed_example :
    IsIndexed redis (after_token_call redis jwt 10080 (revoke_all_call 7) world)
after_token_call-IsIndexed_example =
    after_token_call-IsIndexed redis jwt 10080 (revoke_all_call 7) world world-IsIndexed

-- two calls with token 1, and the commands of one between those of the other
abbrev schedule : List Event
schedule =
    client 0 ∷ client 1 ∷ client 1 ∷ other (revoke_all_call 8) ∷ client 0 ∷ client 1 ∷ client 0 ∷ []

race_one_example :
    length (filter has_token (race redis 1 jwt 10080 schedule (reading ∷ reading ∷ []) world).0) ≤ 1
race_one_example =
    race_one redis 1 jwt 10080 schedule (reading ∷ reading ∷ []) world (omega arith) refl

races : (race redis 1 jwt 10080 schedule (reading ∷ reading ∷ []) world).0 ≡ refused ∷ won 7 ∷ []
unfolding race client_step consume_step revoke_all_for_user
races = refl

-- the same two calls, without another command between theirs
abbrev order : List ℕ
order = 0 ∷ 1 ∷ 1 ∷ 0 ∷ 1 ∷ []

race_winner_example :
    HasWinner 7 (race redis 1 jwt 10080 (map client order) (readers 2) world).0
    × (redis.hget 1 (race redis 1 jwt 10080 (map client order) (readers 2) world).1.store ≡ none)
unfolding race client_step consume_step
race_winner_example = race_winner redis 1 jwt 10080 1 7 order world refl refl

login_effect_example :
    (logs_in redis jwt passwords settings texts 1000
        (codes "ada@example.org")
        (codes "secret")
        world
        users_db
      ≡ (err multiple_results, world, users_db))
    ⊎ (Refused redis jwt passwords settings texts 1000
          (codes "ada@example.org")
          (codes "secret")
          world
          users_db
          (logs_in redis jwt passwords settings texts 1000
            (codes "ada@example.org")
            (codes "secret")
            world
            users_db)
        ⊎ Admitted redis jwt passwords settings texts 1000
            (codes "ada@example.org")
            (codes "secret")
            world
            users_db
            (logs_in redis jwt passwords settings texts 1000
              (codes "ada@example.org")
              (codes "secret")
              world
              users_db))
login_effect_example =
    login_effect redis jwt passwords settings texts 1000 (codes "ada@example.org") (codes "secret")
      world users_db

logs_in_ada :
    (logs_in redis jwt passwords settings texts 1000
      (codes "ada@example.org")
      (codes "secret")
      world
      users_db).0
    ≡ ok (
      encode (claims 1000 7 TokenType.access 15 3),
      encode (claims 1000 7 TokenType.refresh 10080 4),
      7,
    )
unfolding login create_token issue
logs_in_ada = refl

-- the token 1
abbrev token : Text
token = encode (claims 500 7 TokenType.refresh 10080 1)

refresh_once_example :
    let (_, w', db') = refreshes redis jwt passwords settings 1000 token world users_db in
    refreshes redis jwt passwords settings 1001 token w' db'
    ≡ (err (app invalid_refresh_token), w', db')
refresh_once_example =
    refresh_once redis jwt passwords settings token (claims 500 7 TokenType.refresh 10080 1) 1 refl
      1000 1001 world users_db world-IsIndexed refl refl

refreshes_ada :
    (refreshes redis jwt passwords settings 1000 token world users_db).0
    ≡ ok (
      encode (claims 1000 7 TokenType.access 15 3),
      encode (claims 1000 7 TokenType.refresh 10080 4),
    )
unfolding refresh consume create_token issue
refreshes_ada = refl

change_password_effect_example :
    (changes redis jwt passwords settings 2 1000 7 ada
        (codes "secret")
        (codes "better")
        world
        users_db
      ≡ (err (app invalid_credentials), world, users_db))
    ⊎ PasswordChanged redis jwt passwords settings 2 1000 7 ada
        (codes "secret")
        (codes "better")
        world
        users_db
change_password_effect_example =
    change_password_effect redis jwt passwords settings 2 1000 7 ada (codes "secret")
      (codes "better") world users_db world-IsIndexed

change_password_ada :
    (changes redis jwt passwords settings 2 1000 7 ada
      (codes "secret")
      (codes "better")
      world
      users_db).0
    ≡ ok tt
unfolding change_password
change_password_ada = refl

reset_password_effect_example :
    let (r, w', db') =
      run (reset_password redis passwords 2 (codes "fresh") reviewer 7 none) world users_db in
    (password : Text) × (r ≡ ok password)
    × IsChosen redis passwords none (codes "fresh") password
    × (lookup 7 db'.users
        ≡ some (record ada {
          password_hash = 2 ∷ password;
          require_password_reset = true;
          last_password_changed_at = some 1000;
          updated_at = some 1000;
        }))
    × ((j : ℕ)
        → redis.hget j w'.store
          ≡ (if redis.hget j world.store == some 7 then none else redis.hget j world.store))
reset_password_effect_example =
    reset_password_effect redis passwords 2 (codes "fresh") reviewer 7 none world users_db ada
      world-IsIndexed refl
