-- ===== src/Prelude/Keys.antt =====
-- Primary keys: no two rows of a table have one key.
use Prim.Native.Nat.{ℕ}
use mathlib.Core.Logic.{inl, inr}
use mathlib.Core.Path.{◌≡◌, refl, ap}
use mathlib.Core.Bool.{Bool, true, false}
use mathlib.Core.Option.{none, some}
use mathlib.Core.List.{List, [], ◌∷◌, ◌++◌}
use native.Mathlib.Omega.{arith}
use datacraft_backend.Prelude.Tests.{Bool-cases}
use datacraft_backend.Prelude.Eq.{◌==◌, nat_eq}
use datacraft_backend.Prelude.Lists.{All, member-append, filter, member, nodup, length}
use datacraft_backend.Prelude.Tables.{Table, lookup, add, update}

module _ {R : Type 0} where
  abbrev pub keys : Table R → List ℕ
  keys [] = []
  keys ((k, r) ∷ t) = k ∷ keys t

  abbrev pub UniqueKeys : Table R → Type 0
  UniqueKeys t = nodup (keys t) ≡ true

  pub keys-update : (k : ℕ) (f : R → R) (t : Table R) → keys (update k f t) ≡ keys t
  keys-update k f [] = refl
  keys-update k f ((j, r) ∷ t) = ground (arith, keys-update k f t)

  pub length-update : (k : ℕ) (f : R → R) (t : Table R) → length (update k f t) ≡ length t
  length-update k f [] = refl
  length-update k f ((j, r) ∷ t) = ground (arith, length-update k f t)

  pub member-keys : (k : ℕ) (t : Table R) (r : R) → lookup k t ≡ some r → member k (keys t) ≡ true
  member-keys k [] r h = cc
  member-keys k ((j, s) ∷ t) r h = ground (arith, member-keys k t r)

  pub member-keys-none : (k : ℕ) (t : Table R) → lookup k t ≡ none → member k (keys t) ≡ false
  member-keys-none k [] h = refl
  member-keys-none k ((j, s) ∷ t) h = ground (arith, member-keys-none k t)

  absent_keys :
      (k : ℕ) (t : Table R) (r : R)
      → member k (keys t) ≡ false
      → All (λ row. row.0 ≡ k → row.1 ≡ r) t
  absent_keys k [] r h = tt
  absent_keys k ((j, s) ∷ t) r h =
      (λ e. absurd (ground (arith, e)), absent_keys k t r (ground arith))

  -- The row that a key finds is the only row of that key.
  pub lookup-UniqueKeys :
      (k : ℕ) (t : Table R) (r : R)
      → UniqueKeys t
      → lookup k t ≡ some r
      → All (λ row. row.0 ≡ k → row.1 ≡ r) t
  lookup-UniqueKeys k [] r u h = tt
  lookup-UniqueKeys k ((j, s) ∷ t) r u h = elim (Bool-cases (j == k)) [
    | inl e ↦ (λ _. ground (arith, e), absent_keys k t r (ground (arith, e)))
    | inr e ↦ (
      λ q. absurd (ground (arith, e, q)),
      lookup-UniqueKeys k t r (ground arith) (ground (arith, e)),
    )
  ]

  -- A test that one row passes leads to that row by its key.
  pub filter-UniqueKeys :
      (p : ℕ × R → Bool) (k : ℕ) (r : R) (t : Table R)
      → UniqueKeys t
      → filter p t ≡ (k, r) ∷ []
      → (lookup k t ≡ some r) × (p (k, r) ≡ true)
  filter-UniqueKeys p k r [] u h = cc
  filter-UniqueKeys p k r ((j, s) ∷ t) u h = elim (Bool-cases (p (j, s))) [
    | inl e ↦
        let same : ◌≡◌ {A = List (ℕ × R)} ((j, s) ∷ filter p t) ((k, r) ∷ []) = ground (arith, e) in
        let key : j ≡ k = cc (same) in
        let row : s ≡ r = cc (same) in (ground (arith, key, row), rw (← key, ← row) e)
    | inr e ↦
        let rest = filter-UniqueKeys p k r t (ground arith) (ground (arith, e)) in
        (ground (arith, rest.0, member-keys k t r rest.0), rest.1)
  ]

  pub filter-update :
      (p : ℕ × R → Bool) (k : ℕ) (f : R → R) (t : Table R)
      → ((j : ℕ) (r : R) → p (j, f r) ≡ p (j, r))
      → filter p (update k f t) ≡ update k f (filter p t)
  filter-update p k f [] h = refl
  filter-update p k f ((j, r) ∷ t) h = ground (arith, h j r, filter-update p k f t h)

  pub keys-add : (k : ℕ) (r : R) (t : Table R) → keys (add k r t) ≡ keys t ++ k ∷ []
  keys-add k r [] = refl
  keys-add k r ((j, s) ∷ t) = ap (λ ks. j ∷ ks) (keys-add k r t)

  pub UniqueKeys-add :
      (k : ℕ) (r : R) (t : Table R) → UniqueKeys t → lookup k t ≡ none → UniqueKeys (add k r t)
  UniqueKeys-add k r [] u h = refl
  UniqueKeys-add k r ((j, s) ∷ t) u h =
      ground (arith, keys-add k r t, member-append j (keys t) (k ∷ []), UniqueKeys-add k r t)
