-- ===== src/Prelude/Dicts.antt =====
-- Python's dictionaries as their entries in insertion order.
use mathlib.Core.Logic.{◌↔◌, inl, inr}
use mathlib.Core.Path.{◌≡◌, refl}
use mathlib.Core.Bool.{Bool, true, false, ◌||◌, ◌&&◌}
use mathlib.Core.Option.{Option, none, some}
use mathlib.Core.List.{List, [], ◌∷◌}
use native.Mathlib.Omega.{arith}
use datacraft_backend.Prelude.Tests.{if◌then◌else◌, Bool-cases}
use datacraft_backend.Prelude.Lists.{member, nodup}
use datacraft_backend.Prelude.Eq.{Equality, ◌==◌, beq_refl, beq_sym, eq_of_beq}

-- None and the keys that are there
module _ {K : Type 0} ⦃e : Equality K⦄ where
  abbrev option_beq : Option K → Option K → Bool
  option_beq none none = true
  option_beq none (some b) = false
  option_beq (some a) none = false
  option_beq (some a) (some b) = a == b

  pub option_beq_iff : (a b : Option K) → (option_beq a b ≡ true) ↔ (a ≡ b)
  option_beq_iff none none = ground arith
  option_beq_iff none (some b) = ground arith
  option_beq_iff (some a) none = ground arith
  option_beq_iff (some a) (some b) = ground (arith, e.beq_iff a b)

  instance abbrev pub option_eq : Equality (Option K)
  option_eq = record { beq = option_beq; beq_iff = option_beq_iff }

-- tuples and lists, entry by entry
module _ {A B : Type 0} ⦃ea : Equality A⦄ ⦃eb : Equality B⦄ where
  abbrev pair_beq : A × B → A × B → Bool
  pair_beq (a, b) (c, d) = a == c && b == d

  pub pair_beq_iff : (x y : A × B) → (pair_beq x y ≡ true) ↔ (x ≡ y)
  pair_beq_iff (a, b) (c, d) = ground (arith, ea.beq_iff a c, eb.beq_iff b d)

  instance abbrev pub pair_eq : Equality (A × B)
  pair_eq = record { beq = pair_beq; beq_iff = pair_beq_iff }

module _ {A : Type 0} ⦃ea : Equality A⦄ where
  abbrev list_beq : List A → List A → Bool
  list_beq [] [] = true
  list_beq [] (y ∷ ys) = false
  list_beq (x ∷ xs) [] = false
  list_beq (x ∷ xs) (y ∷ ys) = x == y && list_beq xs ys

  pub list_beq_iff : (a b : List A) → (list_beq a b ≡ true) ↔ (a ≡ b)
  list_beq_iff [] [] = ground arith
  list_beq_iff [] (y ∷ ys) = ground arith
  list_beq_iff (x ∷ xs) [] = ground arith
  list_beq_iff (x ∷ xs) (y ∷ ys) = ground (arith, ea.beq_iff x y, list_beq_iff xs ys)

  abbrev pub list_eq : Equality (List A)
  list_eq = record { beq = list_beq; beq_iff = list_beq_iff }

abbrev pub Dict : Type 0 → Type 0 → Type 0
Dict K V = List (K × V)

module _ {K V : Type 0} ⦃e : Equality K⦄ where
  -- `d.get(k)`
  abbrev pub dict_get : K → Dict K V → Option V
  dict_get k [] = none
  dict_get k ((j, v) ∷ d) = if j == k then some v else dict_get k d

  -- `d[k] = v`
  abbrev pub dict_set : K → V → Dict K V → Dict K V
  dict_set k v [] = (k, v) ∷ []
  dict_set k v ((j, w) ∷ d) =
      let rest = dict_set k v d in if j == k then (j, v) ∷ d else (j, w) ∷ rest

  -- a dictionary display: of two entries with one key, the later one counts
  abbrev pub dict_update : Dict K V → List (K × V) → Dict K V
  dict_update d [] = d
  dict_update d ((k, v) ∷ entries) = dict_update (dict_set k v d) entries

  pub dict_get-dict_set :
      (i k : K) (v : V) (d : Dict K V)
      → dict_get i (dict_set k v d) ≡ (if k == i then some v else dict_get i d)
  dict_get-dict_set i k v [] = refl
  dict_get-dict_set i k v ((j, w) ∷ d) = elim (Bool-cases (j == k)) [
    | inl q ↦ rw (eq_of_beq j k q, beq_refl k) (ground arith)
    | inr q ↦ elim (Bool-cases (j == i)) [
      | inl p ↦ rw (← eq_of_beq j i p, q, beq_refl j, beq_sym k j, q) refl
      | inr p ↦ rw (q, p) (dict_get-dict_set i k v d)
    ]
  ]

abbrev pub dict_keys : {K V : Type 0} → Dict K V → List K
dict_keys [] = []
dict_keys ((k, v) ∷ d) = k ∷ dict_keys d

module _ {K V : Type 0} ⦃e : Equality K⦄ where
  pub member-dict_set :
      (i k : K) (v : V) (d : Dict K V)
      → member i (dict_keys (dict_set k v d)) ≡ (member i (dict_keys d) || i == k)
  member-dict_set i k v [] = ground (arith, beq_sym i k)
  member-dict_set i k v ((j, w) ∷ d) = elim (Bool-cases (j == k)) [
    | inl q ↦ rw (eq_of_beq j k q, beq_refl k) (ground (arith, beq_sym i k))
    | inr q ↦ ground (arith, q, member-dict_set i k v d)
  ]

  pub nodup-dict_set :
      (k : K) (v : V) (d : Dict K V)
      → nodup (dict_keys d) ≡ true
      → nodup (dict_keys (dict_set k v d)) ≡ true
  nodup-dict_set k v [] h = refl
  nodup-dict_set k v ((j, w) ∷ d) h = elim (Bool-cases (j == k)) [
    | inl q ↦ rw q h
    | inr q ↦ ground (arith, q, member-dict_set j k v d, nodup-dict_set k v d)
  ]
