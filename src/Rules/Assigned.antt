-- ===== src/Rules/Assigned.antt =====
-- What `create_assignment` of app/modules/rules/service.py does.
use mathlib.Core.List.{append-nil}
use datacraft_backend.Prelude.{
  ℕ, ◌+◌, ◌≡◌, ◌⊎◌, inl, inr, ap, Bool, true, false, ◌&&◌, List, [], ◌∷◌, ◌++◌, Option, some, arith,
  Table, lookup, add, nat_eq, string_eq, option_eq, ◌==◌, Bool-cases, Option-cases, any, all,
  String, if◌then◌else◌, nodup,
}
use datacraft_backend.Core.Database.{Database}
use datacraft_backend.Core.Exceptions.{
  Error, app, integrity_error, dataset_not_found, duplicate_rule_assignment,
  invalid_rule_assignment_scope, rule_version_not_found,
}
use datacraft_backend.Core.Session.{Context, Result, ok, err, call}
use datacraft_backend.Core.Text.{Text, text_eq}
use datacraft_backend.Models.Rules.{RuleVersion, RuleAssignment, Dataset, Column}
use datacraft_backend.Models.Trail.{ActorType, MetaValue}
use datacraft_backend.Rules.Assignments.{
  create_assignment, assignment_columns, new_assignment, is_same_assignment, has_scope_shape, items,
  is_column_of, is_column_option_of, key_of_scope, column_of_scope,
}

-- The columns of the request belong to the dataset.
abbrev pub has_own_columns : String → ℕ → Option ℕ → List ℕ → Table Column → Bool
has_own_columns scope dataset_id column_id ids columns =
    (if scope == "SINGLE_COLUMN" then is_column_option_of dataset_id columns column_id else true)
    && (if scope == "CROSS_COLUMN"
        then all (is_column_of dataset_id columns) ids && nodup ids
        else true)

module _ (str : ℕ → Text) (c : Context) (version_id dataset_id : ℕ) (scope : String)
    (column_id : Option ℕ) (column_ids : Option (List ℕ)) (template_id : Option ℕ) where
  abbrev pub assignment : RuleAssignment
  assignment =
      new_assignment c version_id dataset_id scope (column_of_scope scope column_id)
        (key_of_scope str scope (items column_ids)) template_id

  -- The request is well-shaped for its scope, and its row and its columns are added.
  pub record Assigned (db : Database) (outcome : Result ℕ × Database) : Type 0 where
    pub version : RuleVersion
    pub version_known : lookup version_id db.rule_versions ≡ some version
    pub dataset : Dataset
    pub dataset_known : lookup dataset_id db.datasets ≡ some dataset
    pub shape : has_scope_shape scope column_id column_ids ≡ true
    pub own_columns :
        has_own_columns scope dataset_id column_id (items column_ids) db.columns ≡ true
    pub is_new : any (is_same_assignment assignment) db.rule_assignments ≡ false
    pub succeeded : outcome.0 ≡ ok db.next_id
    pub assigned : outcome.1.rule_assignments ≡ add db.next_id assignment db.rule_assignments
    pub columns_assigned :
        outcome.1.rule_assignment_columns
        ≡ db.rule_assignment_columns
          ++ (if scope == "CROSS_COLUMN"
              then assignment_columns db.next_id 0 (items column_ids)
              else [])
    pub versions_after : outcome.1.rule_versions ≡ db.rule_versions
    pub datasets_after : outcome.1.datasets ≡ db.datasets
    pub columns_after : outcome.1.columns ≡ db.columns

  abbrev creates : Database → Result ℕ × Database
  creates db =
      call (create_assignment str c version_id dataset_id scope column_id column_ids template_id) db

  abbrev assigned_db : Database → Database
  assigned_db db = record db {
    next_id = db.next_id + 1;
    rule_assignments = add db.next_id assignment db.rule_assignments;
    rule_assignment_columns =
        db.rule_assignment_columns
        ++ (if scope == "CROSS_COLUMN"
            then assignment_columns db.next_id 0 (items column_ids)
            else []);
    audit_events =
        db.audit_events
        ++ record {
          actor_id = some c.actor;
          actor_type = ActorType.user;
          action = "rule_assignment.created";
          entity_type = "RULE_ASSIGNMENT";
          entity_id = db.next_id;
          before_value = [];
          after_value =
              ("dataset_id", MetaValue.id dataset_id)
              ∷ ("assignment_scope", MetaValue.tag scope)
              ∷ [];
          audit_metadata = [];
        }
          ∷ [];
  }

  module _ (db : Database) (version : RuleVersion)
      (known : lookup version_id db.rule_versions ≡ some version) (dataset : Dataset)
      (found : lookup dataset_id db.datasets ≡ some dataset)
      (shape : has_scope_shape scope column_id column_ids ≡ true) where
    assign_refused :
        has_own_columns scope dataset_id column_id (items column_ids) db.columns ≡ true
        → any (is_same_assignment assignment) db.rule_assignments ≡ true
        → creates db ≡ (err (app duplicate_rule_assignment), db)
    unfolding create_assignment
    assign_refused own same = ground arith

    assign_run :
        (own : has_own_columns scope dataset_id column_id (items column_ids) db.columns ≡ true)
        → any (is_same_assignment assignment) db.rule_assignments ≡ false
        → creates db ≡ (ok db.next_id, assigned_db db)
    unfolding create_assignment
    assign_run own same = elim (Bool-cases (scope == "CROSS_COLUMN")) [
      | inl cross ↦ ground (arith, same, own, cross)
      | inr cross ↦ elim (Bool-cases (scope == "SINGLE_COLUMN")) [
        | inl single ↦
            ground (arith, same, own, cross, single, append-nil db.rule_assignment_columns)
        | inr single ↦
            ground (arith, same, own, cross, single, append-nil db.rule_assignment_columns)
      ]
    ]

    assign_row :
        has_own_columns scope dataset_id column_id (items column_ids) db.columns ≡ true
        → ((e : Error) × (creates db ≡ (err e, db))) ⊎ Assigned db (creates db)
    assign_row own = elim (Bool-cases (any (is_same_assignment assignment) db.rule_assignments)) [
      | inl same ↦ inl (app duplicate_rule_assignment, assign_refused own same)
      | inr same ↦
          let done : creates db ≡ (ok db.next_id, assigned_db db) = assign_run own same in
          inr (record {
            version = version;
            version_known = known;
            dataset = dataset;
            dataset_known = found;
            shape = shape;
            own_columns = own;
            is_new = same;
            succeeded = ap (λ (o : Result ℕ × Database). o.0) done;
            assigned = ap (λ (o : Result ℕ × Database). o.1.rule_assignments) done;
            columns_assigned = ap (λ (o : Result ℕ × Database). o.1.rule_assignment_columns) done;
            versions_after = ap (λ (o : Result ℕ × Database). o.1.rule_versions) done;
            datasets_after = ap (λ (o : Result ℕ × Database). o.1.datasets) done;
            columns_after = ap (λ (o : Result ℕ × Database). o.1.columns) done;
          })
    ]

    -- a column of another dataset, or one that is listed twice
    reject_columns :
        has_own_columns scope dataset_id column_id (items column_ids) db.columns ≡ false
        → (e : Error) × (creates db ≡ (err e, db))
    unfolding create_assignment
    reject_columns own = elim (Bool-cases (scope == "SINGLE_COLUMN")) [
      | inl single ↦ (app invalid_rule_assignment_scope, ground (arith, single))
      | inr single ↦ elim (Bool-cases (scope == "CROSS_COLUMN")) [
        | inl cross ↦
            elim (Bool-cases (all (is_column_of dataset_id db.columns) (items column_ids))) [
              | inl own_all ↦
                  elim (Bool-cases (any (is_same_assignment assignment) db.rule_assignments)) [
                    | inl same ↦ (
                      app duplicate_rule_assignment,
                      ground (arith, single, cross, own_all, same),
                    )
                    | inr same ↦ (integrity_error, ground (arith, single, cross, own_all, same))
                  ]
              | inr own_all ↦
                  (app invalid_rule_assignment_scope, ground (arith, single, cross, own_all))
            ]
        | inr cross ↦ absurd (ground (arith, single, cross))
      ]
    ]

  -- Creating an assignment either raises and leaves the database as it was, or the rule version and
  -- the dataset exist, the shape of the request fits its scope, its columns are distinct columns of the
  -- dataset, no assignment is like it, and its row and the rows of its columns are added.
  pub create_assignment_effect :
      (db : Database) → ((e : Error) × (creates db ≡ (err e, db))) ⊎ Assigned db (creates db)
  unfolding create_assignment
  create_assignment_effect db = elim (Option-cases (lookup version_id db.rule_versions)) [
    | inl v ↦ inl (app rule_version_not_found, ground (arith, v))
    | inr (version, v) ↦ elim (Option-cases (lookup dataset_id db.datasets)) [
      | inl d ↦ inl (app dataset_not_found, ground (arith, v, d))
      | inr (dataset, d) ↦ elim (Bool-cases (has_scope_shape scope column_id column_ids)) [
        | inl shape ↦
            elim (Bool-cases
              (has_own_columns scope dataset_id column_id (items column_ids) db.columns)) [
                | inl own ↦ assign_row db version v dataset d shape own
                | inr own ↦ inl (reject_columns db version v dataset d shape own)
              ]
        | inr shape ↦ inl (app invalid_rule_assignment_scope, ground (arith, v, d, shape))
      ]
    ]
  ]
