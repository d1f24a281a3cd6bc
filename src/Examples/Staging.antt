-- ===== src/Examples/Staging.antt =====
-- Two issues of one record, its reference, and the row as it was fetched.
use datacraft_backend.Prelude.{
  ℕ, ◌+◌, ◌≡◌, ◌↔◌, refl, true, List, [], ◌∷◌, ◌++◌, map, Option, none, some, All, nat_eq,
  string_eq, option_eq, String, nodup, Dict, dict_get, dict_keys, pair_eq, dict_update,
}
use datacraft_backend.Core.Text.{Text, codes, text_eq}
use datacraft_backend.Staging.RecordRef.{
  KeyStrategy, generate_record_ref, parse_record_ref_to_key_dict,
}
use datacraft_backend.Staging.Fields.{
  ScopeItem, CorrectedField, DriftStatus, DriverValue, plain, Conversions, build_corrected_fields,
  build_row_snapshot, classify_drift, group_by_record_ref, or_empty, build_fields,
}
use datacraft_backend.Staging.RoundTrip.{key_entry, parse-generate}
use datacraft_backend.Staging.Overlay.{build_row_snapshot-build_corrected_fields}
use datacraft_backend.Staging.Groups.{
  IsCurrent, classify_drift-unchanged, group_by_record_ref_lem, items_of,
}

abbrev show : Text → Text
show s = s

abbrev number : ℕ → Text
number n = (48 + n) ∷ []

abbrev row : Dict Text (Option Text)
row =
    (codes "city", some (codes "Bon"))
    ∷ (codes "id", some (codes "17"))
    ∷ (codes "region", none)
    ∷ []

abbrev key_names : List Text
key_names = codes "id" ∷ codes "region" ∷ []

abbrev reference : Text
reference = codes "17" ++ 31 ∷ 0 ∷ codes "NULL" ++ 0 ∷ []

refers : generate_record_ref show number KeyStrategy.composite key_names row 4 ≡ some reference
unfolding generate_record_ref
refers = refl

parse-generate_example :
    parse_record_ref_to_key_dict reference KeyStrategy.composite key_names
    ≡ some (dict_update [] (map (key_entry show row) key_names))
parse-generate_example =
    parse-generate show row number KeyStrategy.composite key_names 4 reference refl
      ((refl, refl), (tt, tt)) refers

abbrev item_on : ℕ → ℕ → String → ScopeItem
item_on issue column value = record {
  issue_id = issue;
  column_id = some column;
  original_value = some (codes "Bon");
  correction_final_value = some (codes value);
}

abbrev names : Dict (Option ℕ) Text
names = (some 1, codes "city") ∷ (some 2, codes "id") ∷ []

abbrev field_on : ℕ → String → String → CorrectedField
field_on issue column value = record {
  column_name = some (codes column);
  original_value = some (codes "Bon");
  final_value = codes value;
  issue_id = issue;
}

abbrev two_fields : List CorrectedField
two_fields = field_on 20 "city" "Bonn" ∷ field_on 21 "id" "18" ∷ []

builds :
    build_corrected_fields (item_on 20 1 "Bonn" ∷ item_on 21 2 "18" ∷ []) names ≡ some two_fields
unfolding build_corrected_fields build_fields
builds = refl

-- Two final values for one column of a record are refused.
refuses : build_corrected_fields (item_on 20 1 "Bonn" ∷ item_on 21 1 "Köln" ∷ []) names ≡ none
unfolding build_corrected_fields build_fields
refuses = refl

abbrev conversions : Conversions Text Text Text Text (Option Text)
conversions = record {
  float = some;
  isoformat = some;
  decode = some;
  unchanged_value = some;
  null = none;
  text = some;
}

abbrev driver_row : Dict Text (Option (DriverValue Text Text Text Text))
driver_row = (codes "city", some (plain (codes "Bon"))) ∷ []

build_row_snapshot-build_corrected_fields_example :
    All
      (λ field.
        (name : Text)
        → field.column_name ≡ some name
        → dict_get (some name) (build_row_snapshot conversions (some driver_row) two_fields)
          ≡ some (some field.final_value))
      two_fields
build_row_snapshot-build_corrected_fields_example =
    build_row_snapshot-build_corrected_fields conversions names
      (item_on 20 1 "Bonn" ∷ item_on 21 2 "18" ∷ []) two_fields (some driver_row) builds

classify_drift-unchanged_example :
    (classify_drift show (field_on 20 "city" "Bonn" ∷ []) (some row)
      ≡ (DriftStatus.unchanged, none))
    ↔ All (IsCurrent show row) (field_on 20 "city" "Bonn" ∷ [])
classify_drift-unchanged_example =
    classify_drift-unchanged show row (field_on 20 "city" "Bonn" ∷ [])

group_by_record_ref_lem_example :
    (nodup (
        dict_keys (
          group_by_record_ref
            ((codes "a", item_on 20 1 "Bonn") ∷ (codes "a", item_on 21 2 "18") ∷ [])))
      ≡ true)
    × ((ref : Text)
        → or_empty (
            dict_get ref (
              group_by_record_ref
                ((codes "a", item_on 20 1 "Bonn") ∷ (codes "a", item_on 21 2 "18") ∷ [])))
          ≡ items_of ref ((codes "a", item_on 20 1 "Bonn") ∷ (codes "a", item_on 21 2 "18") ∷ []))
group_by_record_ref_lem_example =
    group_by_record_ref_lem ((codes "a", item_on 20 1 "Bonn") ∷ (codes "a", item_on 21 2 "18") ∷ [])
