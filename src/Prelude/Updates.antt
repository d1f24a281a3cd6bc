-- ===== src/Prelude/Updates.antt =====
-- Updates of one row after another, and the same as one update of every row that passes a test.
use Prim.Native.Nat.{ℕ}
use mathlib.Core.Logic.{inl, inr}
use mathlib.Core.Path.{◌≡◌, refl}
use mathlib.Core.Bool.{Bool, false}
use mathlib.Core.List.{List, [], ◌∷◌}
use native.Mathlib.Omega.{arith}
use datacraft_backend.Prelude.Tests.{Bool-cases}
use datacraft_backend.Prelude.Eq.{nat_eq}
use datacraft_backend.Prelude.Lists.{filter, member}
use datacraft_backend.Prelude.Tables.{Table, update, update_where}
use datacraft_backend.Prelude.Keys.{keys, UniqueKeys}

module _ {R : Type 0} where
  abbrev pub update_all : List ℕ → (R → R) → Table R → Table R
  update_all [] f t = t
  update_all (k ∷ ks) f t = update_all ks f (update k f t)

  update-absent : (k : ℕ) (f : R → R) (t : Table R) → member k (keys t) ≡ false → update k f t ≡ t
  update-absent k f [] h = refl
  update-absent k f ((j, r) ∷ t) h = ground (arith, update-absent k f t)

  update_all-absent :
      (j : ℕ) (r : R) (ks : List ℕ) (f : R → R) (t : Table R)
      → member j ks ≡ false
      → update_all ks f ((j, r) ∷ t) ≡ (j, r) ∷ update_all ks f t
  update_all-absent j r [] f t h = refl
  update_all-absent j r (k ∷ ks) f t h = ground (arith, update_all-absent j r ks f (update k f t))

  filter_absent :
      (p : ℕ × R → Bool) (k : ℕ) (t : Table R)
      → member k (keys t) ≡ false
      → member k (keys (filter p t)) ≡ false
  filter_absent p k [] h = refl
  filter_absent p k ((j, r) ∷ t) h = ground (arith, filter_absent p k t)

  pub update_all-filter :
      (p : ℕ × R → Bool) (f : R → R) (t : Table R)
      → UniqueKeys t
      → update_all (keys (filter p t)) f t ≡ update_where p f t
  update_all-filter p f [] u = refl
  update_all-filter p f ((j, r) ∷ t) u =
      let absent : member j (keys t) ≡ false = ground arith in
      let rest = update_all-filter p f t (ground arith) in
      elim (Bool-cases (p (j, r))) [
        | inl e ↦ ground (
          arith,
          e,
          update-absent j f t absent,
          update_all-absent j (f r) (keys (filter p t)) f t (filter_absent p j t absent),
          rest,
        )
        | inr e ↦ ground (
          arith,
          e,
          update_all-absent j r (keys (filter p t)) f t (filter_absent p j t absent),
          rest,
        )
      ]
