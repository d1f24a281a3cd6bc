-- ===== src/Core/Action.antt =====
-- A service call that writes to an external store beside the database session. What it wrote to the
-- store stays, whether or not the call raises or commits.
use datacraft_backend.Prelude.{
  Bool, Option, none, some, nat_eq, string_eq, option_eq, if◌then◌else◌,
}
use datacraft_backend.Core.Exceptions.{Error}
use datacraft_backend.Core.Database.{Database}
use datacraft_backend.Core.Session.{Session, Result, ok, err, Transaction}

abbrev pub Action : Type 0 → Type 0 → Type 0
Action E A = E → Session → Result A × E × Session

module _ {E A : Type 0} where
  abbrev pub pure : A → Action E A
  pure a e s = (ok a, e, s)

  abbrev pub raise : Error → Action E A
  raise x e s = (err x, e, s)

  abbrev pub or_raise : Error → Option A → Action E A
  or_raise x none = raise x
  or_raise x (some a) = pure a

  -- a step of the session alone
  abbrev pub on_session : Transaction A → Action E A
  on_session m e s = let (r, s') = m s in (r, e, s')

  -- a step of the store alone
  abbrev pub on_store : (E → A × E) → Action E A
  on_store f e s = let (a, e') = f e in (ok a, e', s)

infixl 5 ◌>>=◌ ◌>>◌
abbrev pub ◌>>=◌ : {E A B : Type 0} → Action E A → (A → Action E B) → Action E B
◌>>=◌ m f e s = let (r, e', s') = m e s in elim r [ ok a ↦ f a e' s' | err x ↦ raise x e' s' ]

abbrev pub ◌>>◌ : {E A B : Type 0} → Action E A → Action E B → Action E B
m >> k = m >>= λ _. k

abbrev pub raise_if : {E : Type 0} → Bool → Error → Action E (Unit {0})
raise_if b x e s = (if b then err x else ok tt, e, s)

-- A service call in a session of its own: its result, the store and the database that it leaves.
abbrev pub run : {E A : Type 0} → Action E A → E → Database → Result A × E × Database
run m e db = let (r, e', s) = m e (record { committed = db; current = db }) in (r, e', s.committed)
