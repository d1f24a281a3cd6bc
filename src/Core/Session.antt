-- ===== src/Core/Session.antt =====
-- app/core/database.py: a session on the database as a monad of state and exceptions. What is not
-- committed when a call ends is lost: `get_db` and the tasks close the session without a commit.
use datacraft_backend.Prelude.{ℕ, ◌+◌, Bool, List, [], ◌∷◌, Option, none, some, if◌then◌else◌}
use datacraft_backend.Core.Exceptions.{Error, multiple_results, no_result}
use datacraft_backend.Core.Database.{Database}

pub record Session : Type 0 where
  pub committed : Database
  pub current : Database

pub data Result (A : Type 0) : Type 0 where
  ok : A → Result A
  err : Error → Result A

abbrev pub Transaction : Type 0 → Type 0
Transaction A = Session → Result A × Session

module _ {A : Type 0} where
  abbrev pub pure : A → Transaction A
  pure a s = (ok a, s)

  abbrev pub raise : Error → Transaction A
  raise e s = (err e, s)

  abbrev pub gets : (Database → A) → Transaction A
  gets f s = (ok (f s.current), s)

  abbrev pub or_raise : Error → Option A → Transaction A
  or_raise e none = raise e
  or_raise e (some a) = pure a

  -- `scalar_one_or_none()`
  abbrev pub one_or_none : List A → Transaction (Option A)
  one_or_none [] s = (ok none, s)
  one_or_none (a ∷ []) s = (ok (some a), s)
  one_or_none (a ∷ b ∷ rest) s = (err multiple_results, s)

  -- `scalar_one()`
  abbrev pub exactly_one : List A → Transaction A
  exactly_one [] s = (err no_result, s)
  exactly_one (a ∷ []) s = (ok a, s)
  exactly_one (a ∷ b ∷ rest) s = (err multiple_results, s)

infixl 5 ◌>>=◌ ◌>>◌
abbrev pub ◌>>=◌ : {A B : Type 0} → Transaction A → (A → Transaction B) → Transaction B
◌>>=◌ m f s = let (r, s') = m s in elim r [ ok a ↦ f a s' | err e ↦ raise e s' ]

abbrev pub ◌>>◌ : {A B : Type 0} → Transaction A → Transaction B → Transaction B
m >> k = m >>= λ _. k

abbrev pub raise_if : Bool → Error → Transaction (Unit {0})
raise_if b e s = (if b then err e else ok tt, s)

abbrev pub modify : (Database → Database) → Transaction (Unit {0})
modify f s = (ok tt, record s { current = f s.current })

abbrev pub commit : Transaction (Unit {0})
commit s = (ok tt, record { committed = s.current; current = s.current })

-- the key of a row that is about to be added
abbrev pub new_id : Transaction ℕ
new_id s = (
  ok s.current.next_id,
  record s { current = record s.current { next_id = s.current.next_id + 1 } },
)

-- A service call in a session of its own: its result, and what it leaves in the database.
abbrev pub call : {A : Type 0} → Transaction A → Database → Result A × Database
call m db = let (r, s) = m (record { committed = db; current = db }) in (r, s.committed)

-- What every call of a service is given: the acting user and the time.
pub record Context : Type 0 where
  pub actor : ℕ
  pub now : ℕ
