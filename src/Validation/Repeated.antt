-- ===== src/Validation/Repeated.antt =====
-- Which rows the evaluators of app/modules/validation/engine.py that compare rows fail.
use datacraft_backend.Prelude.{
  ℕ, ◌+◌, ◌<◌, ◌≡◌, inl, inr, refl, sym, ap, ◌∙◌, Bool, true, false, ◌&&◌, ◌||◌, List, [], ◌∷◌,
  ◌++◌, map, Option, none, some, arith, nat_eq, string_eq, option_eq, ◌==◌, beq_refl, beq_sym,
  eq_of_beq, Equality, Bool-cases, Option-cases, any, keys, if◌then◌else◌, is_some, member, nodup,
  suc, zero, Dict, dict_get, dict_set, dict_get-dict_set, dict_keys, nodup-dict_set, append_assoc,
  append_nil, pair_eq,
}
use datacraft_backend.Core.Text.{Text}
use datacraft_backend.Validation.Engine.{
  Python, Row, key_of, value_of, evaluate_uniqueness, evaluate_duplicate, row_key, row_key_eq,
  duplicate_failure, unique_failure,
}
use datacraft_backend.Validation.Failures.{
  fail_repeated, RowFailure, or_no_indices, see_rows, fail_indices, is_repeated, fail_groups,
}

is_some-fail_indices :
    (i : ℕ) (indices : List ℕ) (f : RowFailure) (failures : Dict ℕ RowFailure)
    → is_some (dict_get i (fail_indices indices f failures))
      ≡ (member i indices || is_some (dict_get i failures))
is_some-fail_indices i [] f failures = refl
is_some-fail_indices i (j ∷ indices) f failures = ground (
  arith,
  is_some-fail_indices i indices f (dict_set j f failures),
  dict_get-dict_set i j f failures,
)

module _ {K : Type 0} ⦃e : Equality K⦄ where
  -- the places of a key, and the key at a place
  abbrev pub indices_of : K → ℕ → List (Option K) → List ℕ
  indices_of k idx [] = []
  indices_of k idx (none ∷ keys) = indices_of k (suc idx) keys
  indices_of k idx (some j ∷ keys) =
      let rest = indices_of k (suc idx) keys in if j == k then idx ∷ rest else rest

  abbrev pub key_at : ℕ → List (Option K) → Option K
  key_at i [] = none
  key_at zero (key ∷ keys) = key
  key_at (suc i) (key ∷ keys) = key_at i keys

  -- The key at the place stands at another place too.
  abbrev pub is_duplicate : ℕ → List (Option K) → Bool
  is_duplicate i keys = elim (key_at i keys) [
    | none ↦ false
    | some k ↦ is_repeated (indices_of k 0 keys)
  ]

  -- the test of one group
  abbrev fails_in : ℕ → K × List ℕ → Bool
  fails_in i (k, indices) = is_repeated indices && member i indices

  is_some-fail_groups :
      (i : ℕ) (failure : K → RowFailure) (seen : Dict K (List ℕ)) (failures : Dict ℕ RowFailure)
      → is_some (dict_get i (fail_groups failure seen failures))
        ≡ (any (fails_in i) seen || is_some (dict_get i failures))
  is_some-fail_groups i failure [] failures = refl
  is_some-fail_groups i failure ((k, indices) ∷ seen) failures =
      elim (Bool-cases (is_repeated indices)) [
        | inl r ↦ ground (
          arith,
          r,
          is_some-fail_groups i failure seen (fail_indices indices (failure k) failures),
          is_some-fail_indices i indices (failure k) failures,
        )
        | inr r ↦ ground (arith, r, is_some-fail_groups i failure seen failures)
      ]

  seen_indices :
      (k : K) (idx : ℕ) (keys : List (Option K)) (seen : Dict K (List ℕ))
      → or_no_indices (dict_get k (see_rows idx keys seen))
        ≡ or_no_indices (dict_get k seen) ++ indices_of k idx keys
  seen_indices k idx [] seen = sym (append_nil (or_no_indices (dict_get k seen)))
  seen_indices k idx (none ∷ keys) seen = seen_indices k (suc idx) keys seen
  seen_indices k idx (some j ∷ keys) seen =
      let before = or_no_indices (dict_get j seen) ++ idx ∷ [] in
      seen_indices k (suc idx) keys (dict_set j before seen) ∙ elim (Bool-cases (j == k)) [
        | inl q ↦
            rw (dict_get-dict_set k j before seen, q, eq_of_beq j k q)
              (append_assoc (or_no_indices (dict_get k seen)) (idx ∷ [])
                (indices_of k (suc idx) keys))
        | inr q ↦ rw (dict_get-dict_set k j before seen, q) refl
      ]

  seen_once :
      (idx : ℕ) (keys : List (Option K)) (seen : Dict K (List ℕ))
      → nodup (dict_keys seen) ≡ true
      → nodup (dict_keys (see_rows idx keys seen)) ≡ true
  seen_once idx [] seen h = h
  seen_once idx (none ∷ keys) seen h = seen_once (suc idx) keys seen h
  seen_once idx (some j ∷ keys) seen h = seen_once (suc idx) keys _ (nodup-dict_set j _ seen h)

  below_indices :
      (i : ℕ) (k : K) (idx : ℕ) (keys : List (Option K))
      → i < idx
      → member i (indices_of k idx keys) ≡ false
  below_indices i k idx [] lt = refl
  below_indices i k idx (none ∷ keys) lt = below_indices i k (suc idx) keys (omega arith)
  below_indices i k idx (some j ∷ keys) lt =
      ground (arith, below_indices i k (suc idx) keys (omega arith))

  -- A place is among the places of a key exactly when the key stands there.
  member-indices_of :
      (i : ℕ) (k : K) (idx : ℕ) (keys : List (Option K))
      → member (idx + i) (indices_of k idx keys) ≡ (key_at i keys == some k)
  member-indices_of i k idx [] = refl
  member-indices_of zero k idx (none ∷ keys) =
      ground (arith, below_indices idx k (suc idx) keys (omega arith))
  member-indices_of zero k idx (some j ∷ keys) =
      ground (arith, below_indices idx k (suc idx) keys (omega arith))
  member-indices_of (suc i) k idx (none ∷ keys) =
      ground (arith, member-indices_of i k (suc idx) keys)
  member-indices_of (suc i) k idx (some j ∷ keys) =
      ground (arith, member-indices_of i k (suc idx) keys)

  found_fails :
      (i : ℕ) (k : K) (indices : List ℕ) (seen : Dict K (List ℕ))
      → dict_get k seen ≡ some indices
      → fails_in i (k, indices) ≡ true
      → any (fails_in i) seen ≡ true
  found_fails i k indices [] found h = cc
  found_fails i k indices ((j, js) ∷ seen) found h = ground (arith, found_fails i k indices seen)

  member-dict_keys :
      (k : K) (indices : List ℕ) (seen : Dict K (List ℕ))
      → dict_get k seen ≡ some indices
      → member k (dict_keys seen) ≡ true
  member-dict_keys k indices [] found = cc
  member-dict_keys k indices ((j, js) ∷ seen) found =
      ground (arith, beq_sym k j, member-dict_keys k indices seen)

  -- a group in which the place fails
  failing_group :
      (i : ℕ) (seen : Dict K (List ℕ))
      → nodup (dict_keys seen) ≡ true
      → any (fails_in i) seen ≡ true
      → (k : K) × (indices : List ℕ) × (dict_get k seen ≡ some indices)
        × (fails_in i (k, indices) ≡ true)
  failing_group i [] once h = absurd (ground (arith, h))
  failing_group i ((j, js) ∷ seen) once h = elim (Bool-cases (fails_in i (j, js))) [
    | inl f ↦ (j, js, ground (arith, beq_refl j), f)
    | inr f ↦
        let (k, indices, found, fails) =
          failing_group i seen (ground (arith, once)) (ground (arith, h, f)) in
        (
          k,
          indices,
          elim (Bool-cases (j == k)) [
            | inl q ↦
                absurd
                  (ground (arith, once, eq_of_beq j k q, member-dict_keys k indices seen found))
            | inr q ↦ ground (arith, q, found)
          ],
          fails,
        )
  ]

  member-indices_of_all :
      (i : ℕ) (k : K) (keys : List (Option K))
      → member i (indices_of k 0 keys) ≡ (key_at i keys == some k)
  member-indices_of_all i k keys =
      let start : i ≡ 0 + i = omega arith in
      ap (λ n. member n (indices_of k 0 keys)) start ∙ member-indices_of i k 0 keys

  place_fails :
      (i : ℕ) (keys : List (Option K)) → any (fails_in i) (see_rows 0 keys []) ≡ is_duplicate i keys
  place_fails i keys = elim (Bool-cases (any (fails_in i) (see_rows 0 keys []))) [
    | inl h ↦
        let (k, indices, found, fails) =
          failing_group i (see_rows 0 keys []) (seen_once 0 keys [] refl) h in
        let same : indices ≡ indices_of k 0 keys =
          sym (ap or_no_indices found) ∙ seen_indices k 0 keys [] in
        let here : member i indices ≡ true = ground (arith, fails) in
        let repeated : is_repeated indices ≡ true = ground (arith, fails) in
        let at_place : key_at i keys ≡ some k =
          eq_of_beq (key_at i keys) (some k)
            (sym (member-indices_of_all i k keys) ∙ ap (member i) (sym same) ∙ here) in
        ground (arith, h, at_place, same, repeated)
    | inr h ↦ elim (Option-cases (key_at i keys)) [
      | inl nothing ↦ ground (arith, h, nothing)
      | inr (k, at_place) ↦ elim (Bool-cases (is_repeated (indices_of k 0 keys))) [
        | inr once ↦ ground (arith, h, at_place, once)
        | inl repeated ↦ elim (Option-cases (dict_get k (see_rows 0 keys []))) [
          | inl unseen ↦ absurd (ground (arith, repeated, unseen, seen_indices k 0 keys []))
          | inr (indices, found) ↦
              let same : indices ≡ indices_of k 0 keys =
                sym (ap or_no_indices found) ∙ seen_indices k 0 keys [] in
              let here : member i (indices_of k 0 keys) ≡ true =
                member-indices_of_all i k keys ∙ ground (arith, at_place, beq_refl k) in
              absurd (
                ground (
                  arith,
                  h,
                  same,
                  here,
                  repeated,
                  found_fails i k indices (see_rows 0 keys []) found,
                ))
        ]
      ]
    ]
  ]

  pub is_some-fail_repeated :
      (i : ℕ) (failure : K → RowFailure) (keys : List (Option K))
      → is_some (dict_get i (fail_repeated failure keys)) ≡ is_duplicate i keys
  unfolding fail_repeated
  is_some-fail_repeated i failure keys =
      ground (arith, is_some-fail_groups i failure (see_rows 0 keys []) [], place_fails i keys)

-- Without push-down statistics, a row fails the uniqueness rule of a column exactly when its value
-- there is not null and another row has a value of the same hashable form. A row fails the duplicate
-- rule exactly when another row has the same entries, sorted by name and in hashable form.
pub evaluate_uniqueness-evaluate_duplicate :
    (python : Python) (rows : List (Row python)) (column_name : Text) (limit : python.Number)
    (i : ℕ)
    → (is_some (dict_get i (evaluate_uniqueness python rows column_name limit none))
        ≡ is_duplicate ⦃e = python.key_eq⦄ i
            (map (λ row. key_of python (value_of python column_name row)) rows))
      × (is_some (dict_get i (evaluate_duplicate python rows))
          ≡ is_duplicate ⦃e = row_key_eq python⦄ i (map (λ row. some (row_key python row)) rows))
unfolding evaluate_uniqueness evaluate_duplicate
evaluate_uniqueness-evaluate_duplicate python rows column_name limit i = (
  is_some-fail_repeated ⦃e = python.key_eq⦄ i (unique_failure python)
      (map (λ row. key_of python (value_of python column_name row)) rows),
  is_some-fail_repeated ⦃e = row_key_eq python⦄ i (duplicate_failure python)
      (map (λ row. some (row_key python row)) rows),
)
