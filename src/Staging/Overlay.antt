-- ===== src/Staging/Overlay.antt =====
-- Corrected fields that were built without a conflict all reach the row snapshot.
use datacraft_backend.Prelude.{
  ℕ, ◌≡◌, refl, false, List, [], ◌∷◌, Option, none, some, ◌==◌, inl, inr, All, Dict, dict_get,
  dict_set, dict_get-dict_set, option_eq, beq_refl, eq_of_beq, arith, Bool-cases, Option-cases, ◌∙◌,
  ap,
}
use datacraft_backend.Core.Text.{Text, text_eq}
use datacraft_backend.Staging.Fields.{
  ScopeItem, CorrectedField, name_of, remember, build_fields, build_corrected_fields, DriverValue,
  Conversions, overlay, build_row_snapshot, fetched_snapshot, conflicts_at, corrected_field,
}

-- A field of the column has the value.
abbrev Has : Text → Text → CorrectedField → Type 0
Has name value field = field.column_name ≡ some name → field.final_value ≡ value

module _ (names : Dict (Option ℕ) Text) where
  -- A turn of the loop that did not raise.
  build-cons :
      (item : ScopeItem) (items : List ScopeItem) (seen : Dict Text Text)
      (fields : List CorrectedField)
      → build_fields names (item ∷ items) seen ≡ some fields
      → (value : Text) × (rest : List CorrectedField) × (conflicts_at
            (name_of names item)
            value
            seen
          ≡ false)
        × (build_fields names items (remember (name_of names item) value seen) ≡ some rest)
        × (fields ≡ corrected_field (name_of names item) item value ∷ rest)
  unfolding build_fields
  build-cons item items seen fields built = elim (Option-cases item.correction_final_value) [
    | inl e ↦ absurd (ground (arith, e, built))
    | inr (value, e) ↦ elim (Bool-cases (conflicts_at (name_of names item) value seen)) [
      | inl q ↦ absurd (ground (arith, e, q, built))
      | inr q ↦
          elim (Option-cases
            (build_fields names items (remember (name_of names item) value seen))) [
              | inl b ↦ absurd (ground (arith, e, q, b, built))
              | inr (rest, b) ↦ (value, rest, q, b, ground (arith, e, q, b, built))
            ]
    ]
  ]

  build-nil :
      (seen : Dict Text Text) (fields : List CorrectedField)
      → build_fields names [] seen ≡ some fields
      → [] ≡ fields
  unfolding build_fields
  build-nil seen fields built = cc (built)

  agrees :
      (name value known : Text) (column : Option Text) (seen : Dict Text Text)
      → dict_get name seen ≡ some known
      → conflicts_at column value seen ≡ false
      → column ≡ some name
      → value ≡ known
  agrees name value known none seen found free same = absurd (cc (same))
  agrees name value known (some column) seen found free same =
      ground (arith, found, free, same, text_eq.beq_iff known value)

  still_known :
      (name value known : Text) (column : Option Text) (seen : Dict Text Text)
      → dict_get name seen ≡ some known
      → conflicts_at column value seen ≡ false
      → dict_get name (remember column value seen) ≡ some known
  still_known name value known none seen found free = found
  still_known name value known (some column) seen found free = elim (Bool-cases (column == name)) [
    | inl q ↦
        let same =
          agrees name value known (some column) seen found free
            (ap some (eq_of_beq column name q)) in
        rw (dict_get-dict_set name column value seen, q, same) refl
    | inr q ↦ rw (dict_get-dict_set name column value seen, q) found
  ]

  -- What the loop has remembered binds the later fields.
  remembered :
      (items : List ScopeItem) (seen : Dict Text Text) (fields : List CorrectedField)
      (name known : Text)
      → build_fields names items seen ≡ some fields
      → dict_get name seen ≡ some known
      → All (Has name known) fields
  remembered [] seen fields name known built found = rw (← build-nil seen fields built) tt
  remembered (item ∷ items) seen fields name known built found =
      let (value, rest, free, later, same) = build-cons item items seen fields built in
      let column = name_of names item in
      rw same (
        agrees name value known column seen found free,
        remembered items (remember column value seen) rest name known later
            (still_known name value known column seen found free),
      )

module _ {D T B P J : Type 0} (convert : Conversions D T B P J) where
  abbrev Shown : Dict (Option Text) J → CorrectedField → Type 0
  Shown snapshot field =
      (name : Text)
      → field.column_name ≡ some name
      → dict_get (some name) snapshot ≡ some (convert.text field.final_value)

  overlay_keeps :
      (fields : List CorrectedField) (snapshot : Dict (Option Text) J) (name value : Text)
      → dict_get (some name) snapshot ≡ some (convert.text value)
      → All (Has name value) fields
      → dict_get (some name) (overlay convert snapshot fields) ≡ some (convert.text value)
  overlay_keeps [] snapshot name value found all_have = found
  overlay_keeps (f ∷ fields) snapshot name value found all_have =
      let stored =
        dict_get-dict_set (some name) f.column_name (convert.text f.final_value) snapshot in
      overlay_keeps fields (dict_set f.column_name (convert.text f.final_value) snapshot) name value
        (elim (Bool-cases (f.column_name == some name)) [
          | inl q ↦ stored ∙ rw (q, all_have.0 (eq_of_beq f.column_name (some name) q)) refl
          | inr q ↦ stored ∙ rw q found
        ])
        all_have.1

  overlaid :
      (names : Dict (Option ℕ) Text) (items : List ScopeItem) (seen : Dict Text Text)
      (fields : List CorrectedField) (snapshot : Dict (Option Text) J)
      → build_fields names items seen ≡ some fields
      → All (Shown (overlay convert snapshot fields)) fields
  overlaid names [] seen fields snapshot built = rw (← build-nil names seen fields built) tt
  overlaid names (item ∷ items) seen fields snapshot built =
      let (value, rest, free, later, same) = build-cons names item items seen fields built in
      let column = name_of names item in
      rw same (
        (λ name e.
            overlay_keeps rest (dict_set column (convert.text value) snapshot) name value
              (dict_get-dict_set (some name) column (convert.text value) snapshot
                ∙ rw (e, beq_refl (some name)) refl)
              (remembered names items (remember column value seen) rest name value later
                (rw (e, dict_get-dict_set name name value seen, beq_refl name) refl))),
        overlaid names items (remember column value seen) rest
            (dict_set column (convert.text value) snapshot) later,
      )

  -- When the corrected fields of a record are built without an integrity violation, the row
  -- snapshot shows the final value of every one of them that has a column name: no approved
  -- correction is overwritten, by another one or by the fetched row.
  pub build_row_snapshot-build_corrected_fields :
      (names : Dict (Option ℕ) Text) (items : List ScopeItem) (fields : List CorrectedField)
      (row : Option (Dict Text (Option (DriverValue D T B P))))
      → build_corrected_fields items names ≡ some fields
      → All
          (λ field.
            (name : Text)
            → field.column_name ≡ some name
            → dict_get (some name) (build_row_snapshot convert row fields)
              ≡ some (convert.text field.final_value))
          fields
  unfolding build_row_snapshot build_corrected_fields
  build_row_snapshot-build_corrected_fields names items fields row built =
      overlaid names items [] fields (fetched_snapshot convert row) built
