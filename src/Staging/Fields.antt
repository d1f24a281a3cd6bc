-- ===== src/Staging/Fields.antt =====
-- app/modules/staging/record_builder.py: grouping, corrected fields, snapshots and drift
use datacraft_backend.Prelude.{
  ℕ, Bool, false, not, List, [], ◌∷◌, ◌++◌, Option, none, some, ◌==◌, nat_eq, if◌then◌else◌, Dict,
  dict_get, dict_set, option_eq,
}
use datacraft_backend.Core.Text.{Text, text_eq}
use datacraft_backend.Staging.RecordRef.{field_text}

pub record ScopeItem : Type 0 where
  pub issue_id : ℕ
  pub column_id : Option ℕ
  pub original_value : Option Text
  pub correction_final_value : Option Text

abbrev pub or_empty : {A : Type 0} → Option (List A) → List A
or_empty none = []
or_empty (some xs) = xs

-- the loop over the rows with the groups so far
abbrev pub add_to_groups :
    List (Text × ScopeItem) → Dict Text (List ScopeItem) → Dict Text (List ScopeItem)
add_to_groups [] groups = groups
add_to_groups ((ref, item) ∷ rows) groups =
    add_to_groups rows (dict_set ref (or_empty (dict_get ref groups) ++ item ∷ []) groups)

unfoldable pub group_by_record_ref : List (Text × ScopeItem) → Dict Text (List ScopeItem)
group_by_record_ref rows = add_to_groups rows []

pub record CorrectedField : Type 0 where
  pub column_name : Option Text
  pub original_value : Option Text
  pub final_value : Text
  pub issue_id : ℕ

abbrev pub corrected_field : Option Text → ScopeItem → Text → CorrectedField
corrected_field name item value = record {
  column_name = name;
  original_value = item.original_value;
  final_value = value;
  issue_id = item.issue_id;
}

-- `column_name_by_id.get(item.column_id)`
abbrev pub name_of : Dict (Option ℕ) Text → ScopeItem → Option Text
name_of names item = dict_get item.column_id names

-- `existing_value is not None and existing_value != value`
abbrev pub conflicts : Option Text → Text → Bool
conflicts none value = false
conflicts (some existing) value = not (existing == value)

-- one turn of the loop, with the fields of the later items
abbrev put_first : {A : Type 0} → A → Option (List A) → Option (List A)
put_first a none = none
put_first a (some rest) = some (a ∷ rest)

abbrev pub remember : Option Text → Text → Dict Text Text → Dict Text Text
remember none value seen = seen
remember (some name) value seen = dict_set name value seen

abbrev pub conflicts_at : Option Text → Text → Dict Text Text → Bool
conflicts_at none value seen = false
conflicts_at (some name) value seen = conflicts (dict_get name seen) value

-- The loop of `build_corrected_fields`; `none` is a StagingIntegrityViolationError.
unfoldable pub build_fields :
    Dict (Option ℕ) Text → List ScopeItem → Dict Text Text → Option (List CorrectedField)
build_fields names [] seen = some []
build_fields names (item ∷ rest) seen = elim item.correction_final_value [
  | none ↦ none
  | some value ↦
      let name = name_of names item in
      let later = build_fields names rest (remember name value seen) in
      if conflicts_at name value seen
      then none
      else put_first (corrected_field name item value) later
]

unfoldable pub build_corrected_fields :
    List ScopeItem → Dict (Option ℕ) Text → Option (List CorrectedField)
build_corrected_fields items names = build_fields names items []

pub data DriftStatus : Type 0 where
  record_not_found value_changed unchanged : DriftStatus

-- A value that a database driver returns, by the tests of `json_safe`, and Python's conversions.
pub data DriverValue (D T B P : Type 0) : Type 0 where
  decimal : D → DriverValue D T B P
  moment : T → DriverValue D T B P
  bytes : B → DriverValue D T B P
  plain : P → DriverValue D T B P

pub record Conversions (D T B P J : Type 0) : Type 0 where
  pub float : D → J
  pub isoformat : T → J
  pub decode : B → J
  pub unchanged_value : P → J
  pub null : J
  pub text : Text → J

module _ {D T B P J : Type 0} (convert : Conversions D T B P J) where
  unfoldable pub json_safe : Option (DriverValue D T B P) → J
  json_safe none = convert.null
  json_safe (some (decimal d)) = convert.float d
  json_safe (some (moment t)) = convert.isoformat t
  json_safe (some (bytes b)) = convert.decode b
  json_safe (some (plain p)) = convert.unchanged_value p

  unfoldable pub snapshot_of_row : Dict Text (Option (DriverValue D T B P)) → Dict (Option Text) J
  snapshot_of_row [] = []
  snapshot_of_row ((k, v) ∷ row) = (some k, json_safe v) ∷ snapshot_of_row row

  abbrev pub overlay : Dict (Option Text) J → List CorrectedField → Dict (Option Text) J
  overlay snapshot [] = snapshot
  overlay snapshot (field ∷ fields) =
      overlay (dict_set field.column_name (convert.text field.final_value) snapshot) fields

  abbrev pub fetched_snapshot :
      Option (Dict Text (Option (DriverValue D T B P))) → Dict (Option Text) J
  fetched_snapshot none = []
  fetched_snapshot (some row) = snapshot_of_row row

  -- A field without a column name is stored under the key None.
  unfoldable pub build_row_snapshot :
      Option (Dict Text (Option (DriverValue D T B P))) → List CorrectedField → Dict (Option Text) J
  build_row_snapshot fetched_row fields = overlay (fetched_snapshot fetched_row) fields

module _ {V : Type 0} (str : V → Text) where
  abbrev pub drifted_columns : Dict Text (Option V) → List CorrectedField → List Text
  drifted_columns row [] = []
  drifted_columns row (field ∷ fields) =
      let rest = drifted_columns row fields in
      elim field.column_name [
        | none ↦ rest
        | some name ↦ if field_text str row name == field.original_value then rest else name ∷ rest
      ]

  abbrev classify_columns : List Text → DriftStatus × Option (List Text)
  classify_columns [] = (DriftStatus.unchanged, none)
  classify_columns (name ∷ rest) = (DriftStatus.value_changed, some (name ∷ rest))

  -- `fetched_row` is None exactly when the row was not found
  unfoldable pub classify_drift :
      List CorrectedField → Option (Dict Text (Option V)) → DriftStatus × Option (List Text)
  classify_drift fields none = (DriftStatus.record_not_found, none)
  classify_drift fields (some row) = classify_columns (drifted_columns row fields)
