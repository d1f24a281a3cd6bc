-- ===== src/Staging/RoundTrip.antt =====
-- A record reference is read back to the key values that it was made of.
use datacraft_backend.Prelude.{
  ℕ, ◌≡◌, refl, false, List, [], ◌∷◌, ◌++◌, map, Option, none, some, ◌==◌, nat_eq, All, member,
  is_empty, Dict, dict_update, beq_refl, arith, ◌∙◌, ap,
}
use datacraft_backend.Core.Text.{Text, text_eq}
use datacraft_backend.Staging.RecordRef.{
  KeyStrategy, null_sentinel, unit_separator, join, split, zip, encode_part, decode_part,
  parse_record_ref_to_key_dict, field_text, generate_record_ref,
}

split-append :
    (sep : ℕ) (p s : Text) → member sep p ≡ false → split sep (p ++ sep ∷ s) ≡ p ∷ split sep s
unfolding split
split-append sep [] s h = rw (beq_refl sep) refl
split-append sep (c ∷ p) s h = ground (arith, split-append sep p s)

split_alone : (sep : ℕ) (p : Text) → member sep p ≡ false → split sep p ≡ p ∷ []
unfolding split
split_alone sep [] h = refl
split_alone sep (c ∷ p) h = ground (arith, split_alone sep p)

split-join :
    (sep : ℕ) (p : Text) (ps : List Text)
    → member sep p ≡ false
    → All (λ q. member sep q ≡ false) ps
    → split sep (join sep (p ∷ ps)) ≡ p ∷ ps
unfolding join
split-join sep p [] h hs = split_alone sep p h
split-join sep p (q ∷ ps) h hs =
    split-append sep p (join sep (q ∷ ps)) h ∙ ap (λ r. p ∷ r) (split-join sep q ps hs.0 hs.1)

-- The text of a key value neither holds the separator nor reads like the sentinel of a null.
abbrev pub IsSafe : Option Text → Type 0
IsSafe none = Unit
IsSafe (some s) = (member unit_separator s ≡ false) × ((s == null_sentinel) ≡ false)

encoded : (value : Option Text) → IsSafe value → member unit_separator (encode_part value) ≡ false
encoded none safe = refl
encoded (some s) safe = safe.0

decode-encode : (value : Option Text) → IsSafe value → decode_part (encode_part value) ≡ value
decode-encode none safe = refl
decode-encode (some s) safe = rw safe.1 refl

-- The columns that a strategy reads.
abbrev pub key_columns : KeyStrategy → List Text → List Text
key_columns KeyStrategy.single_column [] = []
key_columns KeyStrategy.single_column (name ∷ rest) = name ∷ []
key_columns KeyStrategy.composite names = names
key_columns KeyStrategy.row_index_fallback names = []

module _ {V : Type 0} (str : V → Text) (row : Dict Text (Option V)) where
  abbrev encode_field : Text → Text
  encode_field name = encode_part (field_text str row name)

  abbrev pub key_entry : Text → Text × Option Text
  key_entry name = (name, field_text str row name)

  All-encoded :
      (names : List Text)
      → All (λ name. IsSafe (field_text str row name)) names
      → All (λ q. member unit_separator q ≡ false) (map encode_field names)
  All-encoded [] safe = tt
  All-encoded (name ∷ names) safe =
      (encoded (field_text str row name) safe.0, All-encoded names safe.1)

  zip-decode :
      (names : List Text)
      → All (λ name. IsSafe (field_text str row name)) names
      → zip names (map decode_part (map encode_field names)) ≡ map key_entry names
  zip-decode [] safe = refl
  zip-decode (name ∷ names) safe =
      rw (decode-encode (field_text str row name) safe.0, zip-decode names safe.1) refl

  -- Where the strategy has a key column, and the text of each key value is free of the separator
  -- and differs from the sentinel, the record reference of a row is parsed to the dictionary of
  -- the key columns and their stringified values.
  pub parse-generate :
      (str_int : ℕ → Text) (strategy : KeyStrategy) (names : List Text) (index : ℕ) (ref : Text)
      → is_empty (key_columns strategy names) ≡ false
      → All (λ name. IsSafe (field_text str row name)) (key_columns strategy names)
      → generate_record_ref str str_int strategy names row index ≡ some ref
      → parse_record_ref_to_key_dict ref strategy names
        ≡ some (dict_update [] (map key_entry (key_columns strategy names)))
  unfolding parse_record_ref_to_key_dict generate_record_ref
  parse-generate str_int KeyStrategy.single_column [] index ref nonempty safe made = cc
  parse-generate str_int KeyStrategy.single_column (name ∷ rest) index ref nonempty safe made =
      let same : encode_field name ≡ ref = cc (made) in
      rw (← same, decode-encode (field_text str row name) safe.0) refl
  parse-generate str_int KeyStrategy.composite [] index ref nonempty safe made = cc
  parse-generate str_int KeyStrategy.composite (name ∷ rest) index ref nonempty safe made =
      let same : join unit_separator (map encode_field (name ∷ rest)) ≡ ref = cc (made) in
      let parts = All-encoded (name ∷ rest) safe in
      rw
        (
          ← same,
          split-join unit_separator (encode_field name) (map encode_field rest) parts.0 parts.1,
        )
        (ap (λ entries. some (dict_update [] entries)) (zip-decode (name ∷ rest) safe))
  parse-generate str_int KeyStrategy.row_index_fallback names index ref nonempty safe made = cc
