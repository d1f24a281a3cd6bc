-- ===== src/Prelude/Tables.antt =====
-- A database table as its rows under their primary keys, in insertion order.
use Prim.Native.Nat.{ℕ}
use mathlib.Core.Path.{◌≡◌, refl}
use mathlib.Core.Bool.{Bool}
use mathlib.Core.Option.{Option, none, some}
use mathlib.Core.List.{List, [], ◌∷◌, ◌++◌}
use native.Mathlib.Omega.{arith}
use datacraft_backend.Prelude.Tests.{if◌then◌else◌}
use datacraft_backend.Prelude.Eq.{◌==◌, nat_eq}

abbrev pub Table : Type 0 → Type 0
Table R = List (ℕ × R)

module _ {R : Type 0} where
  -- `session.get(Model, key)`
  abbrev pub lookup : ℕ → Table R → Option R
  lookup k [] = none
  lookup k ((j, r) ∷ t) = if j == k then some r else lookup k t

  -- `session.add(row)`, flushed
  abbrev pub add : ℕ → R → Table R → Table R
  add k r t = t ++ (k, r) ∷ []

  -- assignments to the attributes of the row under `k`, flushed
  abbrev pub update : ℕ → (R → R) → Table R → Table R
  update k f [] = []
  update k f ((j, r) ∷ t) = (if j == k then (j, f r) else (j, r)) ∷ update k f t

  -- assignments to every row that passes the test
  abbrev pub update_where : (ℕ × R → Bool) → (R → R) → Table R → Table R
  update_where p f [] = []
  update_where p f ((j, r) ∷ t) = (if p (j, r) then (j, f r) else (j, r)) ∷ update_where p f t

  abbrev pub map_option : (R → R) → Option R → Option R
  map_option f none = none
  map_option f (some r) = some (f r)

  pub lookup-update :
      (i k : ℕ) (f : R → R) (t : Table R)
      → lookup i (update k f t) ≡ (if i == k then map_option f (lookup i t) else lookup i t)
  lookup-update i k f [] = ground arith
  lookup-update i k f ((j, r) ∷ t) = ground (arith, lookup-update i k f t)

  abbrev pub or_else : Option R → Option R → Option R
  or_else none o = o
  or_else (some r) o = some r

  pub lookup-add :
      (i k : ℕ) (r : R) (t : Table R)
      → lookup i (add k r t) ≡ or_else (lookup i t) (if k == i then some r else none)
  lookup-add i k r [] = refl
  lookup-add i k r ((j, s) ∷ t) = ground (arith, lookup-add i k r t)
