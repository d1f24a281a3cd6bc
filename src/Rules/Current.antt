-- ===== src/Rules/Current.antt =====
-- The current versions of a rule under the writes of the service.
use datacraft_backend.Prelude.{
  ℕ, ◌≡◌, inl, inr, refl, Bool, false, ◌&&◌, List, [], ◌∷◌, ◌++◌, Option, none, some, arith, Table,
  add, update, All, All-imp, nat_eq, string_eq, option_eq, ◌==◌, eq_of_beq, Bool-cases, UniqueKeys,
  lookup-UniqueKeys, filter-UniqueKeys, filter-append, filter, if◌then◌else◌,
}
use datacraft_backend.Models.Rules.{RuleVersion}
use datacraft_backend.Rules.Service.{current_versions, retire}

module _ {R : Type 0} (p : ℕ × R → Bool) (k : ℕ) (f : R → R)
    (retired : (j : ℕ) (r : R) → p (j, f r) ≡ false) where
  filter-update-none : (t : Table R) → filter p t ≡ [] → filter p (update k f t) ≡ []
  filter-update-none [] h = refl
  filter-update-none ((j, r) ∷ t) h = ground (arith, retired j r, filter-update-none t)

  -- When the only row that passes the test is updated so that it no longer does, none is left.
  filter-update-only :
      (v : R) (t : Table R) → filter p t ≡ (k, v) ∷ [] → filter p (update k f t) ≡ []
  filter-update-only v [] h = cc
  filter-update-only v ((j, r) ∷ t) h = elim (Bool-cases (p (j, r))) [
    | inl e ↦
        let same : ◌≡◌ {A = List (ℕ × R)} ((j, r) ∷ filter p t) ((k, v) ∷ []) = ground (arith, e) in
        let key : j ≡ k = cc (same) in
        let rest : filter p t ≡ [] = cc (same) in
        ground (arith, e, key, retired j r, filter-update-none t rest)
    | inr e ↦ ground (arith, e, retired j r, filter-update-only v t)
  ]

  -- An update of a row that does not pass the test leaves the rows that do.
  filter-update-other :
      (t : Table R)
      → All (λ row. row.0 ≡ k → p row ≡ false) t
      → filter p (update k f t) ≡ filter p t
  filter-update-other [] a = refl
  filter-update-other ((j, r) ∷ t) a = elim (Bool-cases (j == k)) [
    | inl e ↦ ground (arith, e, retired j r, a.0 (eq_of_beq j k e), filter-update-other t a.1)
    | inr e ↦ ground (arith, e, filter-update-other t a.1)
  ]

-- The current version of a rule, if there is one, is the row that is retired.
module _ (id : ℕ) (t : Table RuleVersion) (keys : UniqueKeys t) where
  pub current_versions-retire :
      (current : Option (ℕ × RuleVersion))
      → (current ≡ none → current_versions id t ≡ [])
      → ((row : ℕ × RuleVersion) → current ≡ some row → current_versions id t ≡ row ∷ [])
      → current_versions id (retire current t) ≡ []
  current_versions-retire none absent one = absent refl
  current_versions-retire (some (k, v)) absent one =
      filter-update-only _ k _ (λ _ _. ground arith) v t (one (k, v) refl)

  pub current_versions-retire_other :
      (other : ℕ) (current : Option (ℕ × RuleVersion))
      → (id == other) ≡ false
      → ((row : ℕ × RuleVersion) → current ≡ some row → current_versions id t ≡ row ∷ [])
      → current_versions other (retire current t) ≡ current_versions other t
  current_versions-retire_other other none differ one = refl
  current_versions-retire_other other (some (k, v)) differ one =
      let found = filter-UniqueKeys _ k v t keys (one (k, v) refl) in
      filter-update-other _ k _ (λ _ _. ground arith) t
        (All-imp (λ row. row.0 ≡ k → row.1 ≡ v) _ t
          (λ row same e. ground (arith, same e, found.1, differ))
          (lookup-UniqueKeys k t v keys found.0))

pub current_versions-add :
    (id k : ℕ) (v : RuleVersion) (t : Table RuleVersion)
    → current_versions id (add k v t)
      ≡ current_versions id t ++ (if v.rule_id == id && v.is_current then (k, v) ∷ [] else [])
current_versions-add id k v t = rw filter-append refl
