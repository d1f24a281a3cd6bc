-- ===== src/Datasets/Verified.antt =====
-- What a verified business key of app/modules/datasets/business_key_discovery.py is a key of.
use datacraft_backend.Prelude.{
  ℕ, ◌+◌, ◌≤◌, ◌≡◌, inl, inr, refl, ap, ◌∙◌, Bool, true, false, List, [], ◌∷◌, map, Option, some,
  arith, length, All, nat_eq, string_eq, option_eq, beq_sym, eq_of_beq, Equality, Bool-cases,
  String, filter, if◌then◌else◌, is_empty, member, nodup, ltb, suc, zero, Dict, dict_get, dict_set,
  dict_keys, member-dict_set, pair_eq, list_eq,
}
use datacraft_backend.Core.Text.{Text, text_eq}
use datacraft_backend.Datasets.Evidence.{
  verified_unique, CandidateEvidence, SampleRow, Seen, evaluate_combo, evidence_of, values_of,
  has_null, count, passes, or_zero,
}
use datacraft_backend.Datasets.Discovery.{
  ColumnMeta, BusinessKeyDiscoveryResult, sort_evidence, insert_evidence, is_displayed_before,
  is_candidate, discover_business_key_candidates, search, choose, eligible_names, max_width,
  combinations,
}

module _ {A : Type 0} (P : A → Type 0) (p : A → Bool) where
  All-filter : (xs : List A) → All P xs → All P (filter p xs)
  All-filter [] h = tt
  All-filter (x ∷ xs) (h, hs) = elim (Bool-cases (p x)) [
    | inl q ↦ rw q (h, All-filter xs hs)
    | inr q ↦ rw q (All-filter xs hs)
  ]

module _ (P : CandidateEvidence → Type 0) where
  All-insert_evidence :
      (e : CandidateEvidence) (es : List CandidateEvidence)
      → P e
      → All P es
      → All P (insert_evidence e es)
  All-insert_evidence e [] h hs = (h, tt)
  All-insert_evidence e (x ∷ es) h (hx, hs) = elim (Bool-cases (is_displayed_before x e)) [
    | inl q ↦ rw q (hx, All-insert_evidence e es h hs)
    | inr q ↦ rw q (h, (hx, hs))
  ]

  All-sort_evidence : (es : List CandidateEvidence) → All P es → All P (sort_evidence es)
  All-sort_evidence [] h = tt
  All-sort_evidence (e ∷ es) (h, hs) =
      All-insert_evidence e (sort_evidence es) h (All-sort_evidence es hs)

module _ {K V : Type 0} ⦃key_eq : Equality K⦄ where
  length-dict_set :
      (k : K) (v : V) (d : Dict K V)
      → length (dict_set k v d) ≡ (if member k (dict_keys d) then length d else suc (length d))
  length-dict_set k v [] = refl
  length-dict_set k v ((j, w) ∷ d) = ground (arith, length-dict_set k v d, beq_sym j k)

module _ {Value : Type 0} ⦃value_eq : Equality Value⦄ (columns : List Text) where
  abbrev pub key : SampleRow Value → List (Option Value)
  key row = values_of columns row

  abbrev IsNew : Seen Value → SampleRow Value → Type 0
  IsNew seen row = member ⦃e = list_eq⦄ (key row) (dict_keys seen) ≡ false

  -- no value is null, and no two rows have the same values
  pub record IsKey (rows : List (SampleRow Value)) : Type 0 where
    pub not_null : All (λ row. has_null (key row) ≡ false) rows
    pub unique : nodup ⦃e = list_eq⦄ (map key rows) ≡ true

  abbrev seen_with : SampleRow Value → Seen Value → Seen Value
  seen_with row seen =
      dict_set ⦃e = list_eq⦄ (key row) (suc (or_zero (dict_get ⦃e = list_eq⦄ (key row) seen))) seen

  length-seen_with :
      (row : SampleRow Value) (seen : Seen Value)
      → length (seen_with row seen) ≡ (
          if member ⦃e = list_eq⦄ (key row) (dict_keys seen)
          then length seen
          else suc (length seen))
  length-seen_with row seen =
      length-dict_set ⦃key_eq = list_eq⦄ (key row)
        (suc (or_zero (dict_get ⦃e = list_eq⦄ (key row) seen))) seen

  module _ (row : SampleRow Value) (rows : List (SampleRow Value)) (nulls : ℕ)
      (seen : Seen Value) where
    abbrev next : Bool → ℕ × Seen Value
    next b = count columns rows (if b then (suc nulls, seen) else (nulls, seen_with row seen))

    count-null :
        has_null (key row) ≡ true
        → count columns (row ∷ rows) (nulls, seen) ≡ count columns rows (suc nulls, seen)
    count-null q = ap next q

    count-key :
        has_null (key row) ≡ false
        → count columns (row ∷ rows) (nulls, seen) ≡ count columns rows (nulls, seen_with row seen)
    count-key q = ap next q

  length-count :
      (rows : List (SampleRow Value)) (nulls : ℕ) (seen : Seen Value)
      → length (count columns rows (nulls, seen)).1 ≤ length seen + length rows
  length-count [] nulls seen = omega arith
  length-count (row ∷ rows) nulls seen = elim (Bool-cases (has_null (key row))) [
    | inl q ↦ ground (arith, count-null row rows nulls seen q, length-count rows (suc nulls) seen)
    | inr q ↦ ground (
      arith,
      count-key row rows nulls seen q,
      length-count rows nulls (seen_with row seen),
      length-seen_with row seen,
    )
  ]

  IsNew-seen_with :
      (row : SampleRow Value) (seen : Seen Value) (rows : List (SampleRow Value))
      → All (IsNew (seen_with row seen)) rows
      → All (IsNew seen) rows × (member ⦃e = list_eq⦄ (key row) (map key rows) ≡ false)
  IsNew-seen_with row seen [] h = (tt, refl)
  IsNew-seen_with row seen (other ∷ rows) (h, hs) =
      let (fresh, apart) = IsNew-seen_with row seen rows hs in
      let split =
        member-dict_set ⦃e = list_eq⦄ (key other) (key row)
          (suc (or_zero (dict_get ⦃e = list_eq⦄ (key row) seen))) seen in
      (
        (ground (arith, h, split), fresh),
        ground (arith, h, split, apart, beq_sym ⦃e = list_eq⦄ (key other) (key row)),
      )

  count-IsKey :
      (rows : List (SampleRow Value)) (nulls : ℕ) (seen : Seen Value)
      → length (count columns rows (nulls, seen)).1 ≡ length seen + length rows
      → IsKey rows × All (IsNew seen) rows
  count-IsKey [] nulls seen h = (record { not_null = tt; unique = refl }, tt)
  count-IsKey (row ∷ rows) nulls seen h = elim (Bool-cases (has_null (key row))) [
    | inl q ↦
        absurd
          (ground (arith, h, count-null row rows nulls seen q, length-count rows (suc nulls) seen))
    | inr q ↦ elim (Bool-cases (member ⦃e = list_eq⦄ (key row) (dict_keys seen))) [
      | inl known ↦ absurd (
          ground (
            arith,
            h,
            known,
            count-key row rows nulls seen q,
            length-count rows nulls (seen_with row seen),
            length-seen_with row seen,
          ))
      | inr fresh ↦
          let (is_key, new) = count-IsKey rows nulls (seen_with row seen) (
            ground (arith, h, fresh, count-key row rows nulls seen q, length-seen_with row seen)) in
          let (new', apart) = IsNew-seen_with row seen rows new in
          (
            record {
              not_null = (q, is_key.not_null);
              unique = ground (arith, apart, is_key.unique);
            },
            (fresh, new'),
          )
    ]
  ]

module _ {Value : Type 0} ⦃value_eq : Equality Value⦄ (rows : List (SampleRow Value))
    (is_full_scan : Bool) where
  -- evidence that says VERIFIED_UNIQUE tells the truth
  abbrev IsTrue : CandidateEvidence → Type 0
  IsTrue one =
      one.verification_level ≡ some verified_unique → (is_full_scan ≡ true) × IsKey one.columns rows

  passes-length :
      (total nulls : ℕ) (seen : Seen Value)
      → passes total (nulls, seen) ≡ true
      → length seen ≡ total
  passes-length total nulls seen h = ground (arith, h, eq_of_beq (length seen) total)

  passed :
      (columns : List Text) (total : ℕ) (full : Bool) (tally : ℕ × Seen Value)
      → (evidence_of columns total full tally).verification_level ≡ some verified_unique
      → (passes total tally ≡ true) × (full ≡ true)
  passed columns total full (nulls, seen) h = elim (Bool-cases (passes total (nulls, seen))) [
    | inl q ↦ (q, ground (arith, h, q))
    | inr q ↦ absurd (ground (arith, h, q))
  ]

  evaluate_combo-IsTrue : (columns : List Text) → IsTrue (evaluate_combo rows is_full_scan columns)
  unfolding evaluate_combo
  evaluate_combo-IsTrue columns h =
      let tally = count columns rows (0, []) in
      let (q, full) = passed columns (length rows) is_full_scan tally h in
      (
        full,
        (count-IsKey columns rows 0 []
            (passes-length (length rows) tally.0 tally.1 q ∙ omega arith)).0,
      )

  combos-IsTrue :
      (combos : List (List Text)) → All IsTrue (map (evaluate_combo rows is_full_scan) combos)
  combos-IsTrue [] = tt
  combos-IsTrue (columns ∷ combos) = (evaluate_combo-IsTrue columns, combos-IsTrue combos)

  module _ (upper : String → String) (columns : List ColumnMeta) where
    -- The recommendation of a result that is VERIFIED_UNIQUE is a key of all rows of the source.
    abbrev IsVerified : BusinessKeyDiscoveryResult → Type 0
    IsVerified r =
        r.status ≡ some verified_unique
        → (one : CandidateEvidence) × (r.recommended ≡ some one)
          × (is_full_scan ≡ true)
          × IsKey one.columns rows

    choose-IsVerified :
        (sorted evaluated : List CandidateEvidence) (widths : List ℕ)
        (wider : BusinessKeyDiscoveryResult)
        → All IsTrue sorted
        → IsVerified wider
        → IsVerified (choose upper columns rows is_full_scan sorted evaluated widths wider)
    choose-IsVerified [] evaluated widths wider truths h verified = h verified
    choose-IsVerified (one ∷ []) evaluated widths wider (truth, _) h verified =
        let (full, is_key) = truth verified in (one, refl, full, is_key)
    choose-IsVerified (one ∷ other ∷ more) evaluated widths wider truths h verified =
        absurd (ground (arith, verified))

    search-IsVerified :
        (left width : ℕ) (evaluated : List CandidateEvidence) (widths : List ℕ)
        → IsVerified (search upper columns rows is_full_scan left width evaluated widths)
    search-IsVerified zero width evaluated widths = λ verified. absurd (ground (arith, verified))
    search-IsVerified (suc left) width evaluated widths =
        choose-IsVerified _ _ _ _
          (All-sort_evidence IsTrue _ (
            All-filter IsTrue is_candidate _ (
              combos-IsTrue (combinations (eligible_names upper columns rows is_full_scan) width))))
          (search-IsVerified left (suc width) _ _)

    discover-IsVerified :
        IsVerified (discover_business_key_candidates upper columns rows is_full_scan)
    unfolding discover_business_key_candidates
    discover-IsVerified = elim (Bool-cases (ltb (length rows) 2)) [
      | inl q ↦ rw q (λ verified. absurd (ground (arith, verified)))
      | inr q ↦ elim (Bool-cases (is_empty (eligible_names upper columns rows is_full_scan))) [
        | inl none_left ↦ rw (q, none_left) (λ verified. absurd (ground (arith, verified)))
        | inr some_left ↦
            rw (q, some_left)
              (search-IsVerified (max_width upper columns rows is_full_scan) 1 [] [])
      ]
    ]

    -- When the discovery answers VERIFIED_UNIQUE, it recommends columns, the rows were all those of the
    -- source, no row has a null in one of these columns, and no two rows agree on all of them.
    pub discover_verified :
        (discover_business_key_candidates upper columns rows is_full_scan).status
          ≡ some verified_unique
        → (one : CandidateEvidence) × ((discover_business_key_candidates upper columns rows
              is_full_scan).recommended
            ≡ some one)
          × (is_full_scan ≡ true)
          × IsKey one.columns rows
    discover_verified verified = discover-IsVerified verified
