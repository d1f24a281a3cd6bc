-- ===== src/Staging/RecordRef.antt =====
-- app/modules/validation/record_ref.py, and its inverse in app/modules/staging/record_builder.py
use datacraft_backend.Prelude.{
  ℕ, List, [], ◌∷◌, ◌++◌, map, Option, none, some, ◌==◌, nat_eq, if◌then◌else◌, is_empty, Dict,
  dict_get, dict_update,
}
use datacraft_backend.Core.Text.{Text, codes, text_eq}

pub data KeyStrategy : Type 0 where
  single_column composite row_index_fallback : KeyStrategy

-- `_NULL_SENTINEL` and `_UNIT_SEPARATOR`
abbrev pub null_sentinel : Text
null_sentinel = 0 ∷ codes "NULL" ++ 0 ∷ []

abbrev pub unit_separator : ℕ
unit_separator = 31

-- `sep.join(parts)`
unfoldable pub join : ℕ → List Text → Text
join sep [] = []
join sep (part ∷ []) = part
join sep (part ∷ next ∷ rest) = part ++ sep ∷ join sep (next ∷ rest)

abbrev pub add_to_first : ℕ → List Text → List Text
add_to_first c [] = (c ∷ []) ∷ []
add_to_first c (part ∷ rest) = (c ∷ part) ∷ rest

-- `s.split(sep)`
unfoldable pub split : ℕ → Text → List Text
split sep [] = [] ∷ []
split sep (c ∷ s) = let rest = split sep s in if c == sep then [] ∷ rest else add_to_first c rest

abbrev pub zip : {A B : Type 0} → List A → List B → List (A × B)
zip [] ys = []
zip (x ∷ xs) [] = []
zip (x ∷ xs) (y ∷ ys) = (x, y) ∷ zip xs ys

-- the sentinel for a null, and back
abbrev pub encode_part : Option Text → Text
encode_part none = null_sentinel
encode_part (some s) = s

abbrev pub decode_part : Text → Option Text
decode_part part = if part == null_sentinel then none else some part

abbrev first_entry : List Text → Option Text → List (Text × Option Text)
first_entry [] value = []
first_entry (name ∷ rest) value = (name, value) ∷ []

-- `None`, or the dictionary of the key columns
unfoldable pub parse_record_ref_to_key_dict :
    Text → KeyStrategy → List Text → Option (Dict Text (Option Text))
unfolding split
parse_record_ref_to_key_dict ref KeyStrategy.row_index_fallback names = none
parse_record_ref_to_key_dict ref KeyStrategy.single_column names =
    if is_empty names then none else some (first_entry names (decode_part ref))
parse_record_ref_to_key_dict ref KeyStrategy.composite names =
    if is_empty names
    then none
    else some (dict_update [] (zip names (map decode_part (split unit_separator ref))))

-- A row is a dictionary of the values that a database driver returns, of a type `V`; a null is
-- `none`. `str` is Python's `str` on them.
module _ {V : Type 0} (str : V → Text) where
  abbrev pub str_or_null : Option (Option V) → Option Text
  str_or_null none = none
  str_or_null (some none) = none
  str_or_null (some (some v)) = some (str v)

  -- `row.get(name)`, stringified
  abbrev pub field_text : Dict Text (Option V) → Text → Option Text
  field_text row name = str_or_null (dict_get name row)

  -- `none` for the IndexError of a single-column key without a column
  unfoldable pub generate_record_ref :
      (ℕ → Text) → KeyStrategy → List Text → Dict Text (Option V) → ℕ → Option Text
  unfolding join
  generate_record_ref str_int KeyStrategy.single_column [] row index = none
  generate_record_ref str_int KeyStrategy.single_column (name ∷ rest) row index =
      some (encode_part (field_text row name))
  generate_record_ref str_int KeyStrategy.composite names row index =
      some (join unit_separator (map (λ name. encode_part (field_text row name)) names))
  generate_record_ref str_int KeyStrategy.row_index_fallback names row index =
      some (codes "ROWIDX:" ++ str_int index)
