-- ===== src/Rules/Assignments.antt =====
-- app/modules/rules/service.py: `RuleAssignmentService`
use datacraft_backend.Prelude.{
  ℕ, String, Bool, true, false, not, ◌&&◌, ◌||◌, List, [], ◌∷◌, ◌++◌, map, Option, none, some,
  Table, lookup, add, update, ltb, ◌==◌, nat_eq, string_eq, option_eq, if◌then◌else◌, any, all,
  nodup, is_some, is_empty, suc,
}
use datacraft_backend.Core.Exceptions.{
  app, integrity_error, dataset_not_found, duplicate_rule_assignment, invalid_rule_assignment_scope,
  rule_assignment_not_found, rule_version_not_found,
}
use datacraft_backend.Core.Session.{
  Transaction, Context, pure, gets, or_raise, raise_if, modify, commit, new_id, ◌>>=◌, ◌>>◌,
}
use datacraft_backend.Core.Text.{Text, text_eq}
use datacraft_backend.Models.Rules.{RuleAssignment, RuleAssignmentColumn, Column}
use datacraft_backend.Models.Trail.{MetaValue, ActorType}
use datacraft_backend.Trail.Audit.{record_event, record_change}
use datacraft_backend.Staging.RecordRef.{join, unit_separator}

unfoldable pub get_assignment : ℕ → Transaction RuleAssignment
get_assignment id = do
  found ← gets (λ db. lookup id db.rule_assignments)
  or_raise (app rule_assignment_not_found) found

-- `_ASSIGNMENT_SCOPES`
abbrev pub is_scope : String → Bool
is_scope scope = scope == "SINGLE_COLUMN" || scope == "DATASET_LEVEL" || scope == "CROSS_COLUMN"

-- a list that may be None, where only its items matter
abbrev pub items : Option (List ℕ) → List ℕ
items none = []
items (some ids) = ids

-- two items at least
abbrev pub has_two : List ℕ → Bool
has_two [] = false
has_two (x ∷ []) = false
has_two (x ∷ y ∷ rest) = true

-- `_validate_scope_shape` raises where this is false.
unfoldable pub has_scope_shape : String → Option ℕ → Option (List ℕ) → Bool
has_scope_shape scope column_id column_ids =
    if not (is_scope scope)
    then false
    else if scope == "SINGLE_COLUMN"
    then is_some column_id && is_empty (items column_ids)
    else if scope == "DATASET_LEVEL"
    then not (is_some column_id) && is_empty (items column_ids)
    else not (is_some column_id) && has_two (items column_ids)

-- `select(Column.id).where(Column.id == column_id, Column.dataset_id == dataset_id)`
abbrev pub is_column_of : ℕ → Table Column → ℕ → Bool
is_column_of dataset_id columns column_id =
    any (λ (id, col). id == column_id && col.dataset_id == dataset_id) columns

abbrev pub is_column_option_of : ℕ → Table Column → Option ℕ → Bool
is_column_option_of dataset_id columns none = false
is_column_option_of dataset_id columns (some id) = is_column_of dataset_id columns id

-- `<` of Python's strings, and `sorted`
unfoldable pub text_lt : Text → Text → Bool
text_lt [] [] = false
text_lt [] (y ∷ ys) = true
text_lt (x ∷ xs) [] = false
text_lt (x ∷ xs) (y ∷ ys) = if ltb x y then true else if x == y then text_lt xs ys else false

unfoldable pub insert_sorted : Text → List Text → List Text
insert_sorted t [] = t ∷ []
insert_sorted t (s ∷ rest) =
    let later = insert_sorted t rest in if text_lt s t then s ∷ later else t ∷ s ∷ rest

unfoldable pub sorted : List Text → List Text
sorted [] = []
sorted (t ∷ ts) = insert_sorted t (sorted ts)

-- `str` is Python's `str` on identifiers.
unfoldable pub cross_column_key : (ℕ → Text) → List ℕ → Text
unfolding sorted insert_sorted text_lt join
cross_column_key str column_ids = join unit_separator (sorted (map str column_ids))

-- The six partial unique indexes of migration 0009: both rows lie in one of them with equal keys.
abbrev pub is_same_assignment : RuleAssignment → ℕ × RuleAssignment → Bool
is_same_assignment a (_, b) =
    a.rule_version_id == b.rule_version_id
    && a.dataset_id == b.dataset_id
    && a.assignment_scope == b.assignment_scope
    && a.template_id == b.template_id
    && (if a.assignment_scope == "SINGLE_COLUMN"
        then a.column_id == b.column_id
        else if a.assignment_scope == "CROSS_COLUMN"
        then a.cross_column_key == b.cross_column_key
        else true)

-- `db.add(assignment)` and the flush, whose IntegrityError becomes DuplicateRuleAssignmentError
unfoldable pub add_assignment : RuleAssignment → Transaction ℕ
add_assignment a = do
  id ← new_id
  taken ← gets (λ db. any (is_same_assignment a) db.rule_assignments)
  raise_if taken (app duplicate_rule_assignment)
  modify (λ db. record db { rule_assignments = add id a db.rule_assignments })
  pure id

abbrev pub new_assignment :
    Context → ℕ → ℕ → String → Option ℕ → Option Text → Option ℕ → RuleAssignment
new_assignment c version_id dataset_id scope column_id key template_id = record {
  rule_version_id = version_id;
  dataset_id = dataset_id;
  assignment_scope = scope;
  column_id = column_id;
  cross_column_key = key;
  template_id = template_id;
  is_enabled = true;
  assigned_by = some c.actor;
  updated_at = none;
}

-- `enumerate(column_ids)`
abbrev pub assignment_columns : ℕ → ℕ → List ℕ → List RuleAssignmentColumn
assignment_columns assignment_id ordinal [] = []
assignment_columns assignment_id ordinal (id ∷ ids) =
    record { rule_assignment_id = assignment_id; column_id = id; ordinal = ordinal }
    ∷ assignment_columns assignment_id (suc ordinal) ids

-- The second flush is not guarded: a column that is listed twice breaks the primary key.
abbrev pub add_assignment_columns : ℕ → List ℕ → Transaction (Unit {0})
add_assignment_columns assignment_id ids = do
  raise_if (not (nodup ids)) integrity_error
  modify (λ db. record db {
    rule_assignment_columns = db.rule_assignment_columns ++ assignment_columns assignment_id 0 ids;
  })

abbrev pub log_assignment : Context → ℕ → ℕ → String → Transaction (Unit {0})
log_assignment c id dataset_id scope =
    record_change (some c.actor) ActorType.user "rule_assignment.created" "RULE_ASSIGNMENT" id []
      (("dataset_id", MetaValue.id dataset_id) ∷ ("assignment_scope", MetaValue.tag scope) ∷ []) []

abbrev pub key_of_scope : (ℕ → Text) → String → List ℕ → Option Text
key_of_scope str scope ids =
    if scope == "CROSS_COLUMN" then some (cross_column_key str ids) else none

abbrev pub column_of_scope : String → Option ℕ → Option ℕ
column_of_scope scope column_id = if scope == "SINGLE_COLUMN" then column_id else none

unfoldable pub create_assignment :
    (ℕ → Text) → Context → ℕ → ℕ → String → Option ℕ → Option (List ℕ) → Option ℕ → Transaction ℕ
unfolding has_scope_shape add_assignment record_change
create_assignment str c version_id dataset_id scope column_id column_ids template_id = do
  version ← gets (λ db. lookup version_id db.rule_versions)
  or_raise (app rule_version_not_found) version
  dataset ← gets (λ db. lookup dataset_id db.datasets)
  or_raise (app dataset_not_found) dataset
  raise_if (not (has_scope_shape scope column_id column_ids)) (app invalid_rule_assignment_scope)
  columns ← gets (λ db. db.columns)
  raise_if
      (if scope == "SINGLE_COLUMN"
        then not (is_column_option_of dataset_id columns column_id)
        else false)
      (app invalid_rule_assignment_scope)
  raise_if
      (if scope == "CROSS_COLUMN"
        then not (all (is_column_of dataset_id columns) (items column_ids))
        else false)
      (app invalid_rule_assignment_scope)
  id ← add_assignment (
      new_assignment c version_id dataset_id scope (column_of_scope scope column_id)
        (key_of_scope str scope (items column_ids)) template_id)
  if scope == "CROSS_COLUMN" then add_assignment_columns id (items column_ids) else pure tt
  log_assignment c id dataset_id scope
  commit
  pure id

abbrev pub disabled_assignment : Context → RuleAssignment → RuleAssignment
disabled_assignment c a = record a { is_enabled = false; updated_at = some c.now }

unfoldable pub soft_disable : Context → ℕ → Transaction (Unit {0})
unfolding get_assignment record_event record_change
soft_disable c id = do
  get_assignment id
  modify
      (λ db. record db { rule_assignments = update id (disabled_assignment c) db.rule_assignments })
  record_event (some c.actor) ActorType.user "rule_assignment.removed" "RULE_ASSIGNMENT" id []
  commit
