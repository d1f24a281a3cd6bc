-- ===== src/Staging/Groups.antt =====
-- Grouping by record reference, and what counts as drift.
use datacraft_backend.Prelude.{
  ◌≡◌, ◌⊎◌, inl, inr, ◌↔◌, refl, sym, ◌∙◌, true, List, [], ◌∷◌, ◌++◌, Option, none, some, arith,
  All, nat_eq, string_eq, option_eq, ◌==◌, beq_refl, eq_of_beq, Bool-cases, Option-cases,
  if◌then◌else◌, nodup, Dict, dict_get, dict_set, dict_get-dict_set, dict_keys, nodup-dict_set,
  append_assoc, append_nil,
}
use datacraft_backend.Core.Text.{Text, text_eq}
use datacraft_backend.Staging.RecordRef.{field_text}
use datacraft_backend.Staging.Fields.{
  ScopeItem, CorrectedField, add_to_groups, group_by_record_ref, or_empty, DriftStatus,
  drifted_columns, classify_drift,
}

-- The items of a record reference, in order.
abbrev pub items_of : Text → List (Text × ScopeItem) → List ScopeItem
items_of ref [] = []
items_of ref ((r, item) ∷ rows) = if r == ref then item ∷ items_of ref rows else items_of ref rows

grouped :
    (ref : Text) (rows : List (Text × ScopeItem)) (groups : Dict Text (List ScopeItem))
    → or_empty (dict_get ref (add_to_groups rows groups))
      ≡ or_empty (dict_get ref groups) ++ items_of ref rows
grouped ref [] groups = sym (append_nil (or_empty (dict_get ref groups)))
grouped ref ((r, item) ∷ rows) groups =
    let all_items = or_empty (dict_get r groups) ++ item ∷ [] in
    grouped ref rows (dict_set r all_items groups) ∙ elim (Bool-cases (r == ref)) [
      | inl q ↦
          rw (dict_get-dict_set ref r all_items groups, q, eq_of_beq r ref q)
            (append_assoc (or_empty (dict_get ref groups)) (item ∷ []) (items_of ref rows))
      | inr q ↦ rw (dict_get-dict_set ref r all_items groups, q) refl
    ]

grouped_once :
    (rows : List (Text × ScopeItem)) (groups : Dict Text (List ScopeItem))
    → nodup (dict_keys groups) ≡ true
    → nodup (dict_keys (add_to_groups rows groups)) ≡ true
grouped_once [] groups h = h
grouped_once ((r, item) ∷ rows) groups h = grouped_once rows _ (nodup-dict_set r _ groups h)

-- Grouping gives each record reference at most one group, which UNIQUE(staging_run_id, record_ref)
-- asks for, and the group holds every item of the reference in the order of the rows.
pub group_by_record_ref_lem :
    (rows : List (Text × ScopeItem))
    → (nodup (dict_keys (group_by_record_ref rows)) ≡ true)
      × ((ref : Text) → or_empty (dict_get ref (group_by_record_ref rows)) ≡ items_of ref rows)
unfolding group_by_record_ref
group_by_record_ref_lem rows = (grouped_once rows [] refl, (λ ref. grouped ref rows []))

list_cases : {A : Type 0} (xs : List A) → (xs ≡ []) ⊎ ((y : A) × (ys : List A) × (xs ≡ y ∷ ys))
list_cases [] = inl refl
list_cases (x ∷ xs) = inr (x, xs, refl)

module _ {V : Type 0} (str : V → Text) (row : Dict Text (Option V)) where
  -- The source still has the value that the correction was made for.
  abbrev pub IsCurrent : CorrectedField → Type 0
  IsCurrent field =
      (name : Text) → field.column_name ≡ some name → field_text str row name ≡ field.original_value

  not_drifted :
      (fields : List CorrectedField) → drifted_columns str row fields ≡ [] → All IsCurrent fields
  not_drifted [] h = tt
  not_drifted (f ∷ fields) h = elim (Option-cases f.column_name) [
    | inl e ↦ ((λ name s. absurd (cc (e, s))), not_drifted fields (ground (arith, e, h)))
    | inr (column, e) ↦ elim (Bool-cases (field_text str row column == f.original_value)) [
      | inl q ↦ (
        (λ name s.
            let same : column ≡ name = cc (e, s) in
            rw (← same) (eq_of_beq (field_text str row column) f.original_value q)),
        not_drifted fields (ground (arith, e, q, h)),
      )
      | inr q ↦ absurd (ground (arith, e, q, h))
    ]
  ]

  All-current :
      (fields : List CorrectedField) → All IsCurrent fields → drifted_columns str row fields ≡ []
  All-current [] h = refl
  All-current (f ∷ fields) h = elim (Option-cases f.column_name) [
    | inl e ↦ ground (arith, e, All-current fields h.1)
    | inr (column, e) ↦
        let same : (field_text str row column == f.original_value) ≡ true =
          rw (h.0 column e) (beq_refl f.original_value) in
        ground (arith, e, same, All-current fields h.1)
  ]

  -- A fetched row is UNCHANGED exactly when each corrected field with a column name still has, in
  -- that row, the original value of its issue. (The other columns are not compared.)
  pub classify_drift-unchanged :
      (fields : List CorrectedField)
      → (classify_drift str fields (some row) ≡ (DriftStatus.unchanged, none))
        ↔ All IsCurrent fields
  unfolding classify_drift
  classify_drift-unchanged fields = (
    (λ h. not_drifted fields (elim (list_cases (drifted_columns str row fields)) [
      | inl e ↦ e
      | inr (x, xs, e) ↦ absurd (ground (arith, e, h))
    ])),
    (λ h. rw (All-current fields h) refl),
  )
