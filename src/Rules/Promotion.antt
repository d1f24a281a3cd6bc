-- ===== src/Rules/Promotion.antt =====
-- What `promote_rule` of app/modules/rules/service.py does.
use datacraft_backend.Prelude.{
  ℕ, ◌≤◌, ◌≡◌, ◌⊎◌, inl, inr, refl, true, false, ◌&&◌, [], ◌∷◌, Option, none, some, arith, Table,
  lookup, add, update, nat_eq, string_eq, option_eq, ◌==◌, Bool-cases, Option-cases, any, String,
  filter, pair_eq,
}
use datacraft_backend.Core.Database.{Database}
use datacraft_backend.Core.Exceptions.{
  Error, app, no_result, multiple_results, dataset_not_found, duplicate_rule_assignment,
  invalid_rule_assignment_scope, rule_promotion_not_supported, rule_not_found,
  invalid_rule_review_transition,
}
use datacraft_backend.Core.Session.{Context, Result, ok, err, call}
use datacraft_backend.Models.Rules.{
  RuleStatus, Rule, Detection, Dataset, RuleVersion, is_pending_review,
}
use datacraft_backend.Rules.Assignments.{is_same_assignment, new_assignment}
use datacraft_backend.Rules.Service.{
  promote_rule, current_versions, resolve_promotion_assignment, has_valid_column,
}

-- The call raised and left the database as it was.
abbrev pub Raised : Database → Result (Unit {0}) × Database → Type 0
Raised db outcome = (e : Error) × (outcome ≡ (err e, db))

-- What the detection of a version of the given rule type is promoted to: the dataset, or a column.
pub data Target (rule_type : String) (version : RuleVersion) (db : Database) (scope : String)
    (column : Option ℕ) (dataset_id : ℕ) : Type 0 where
  whole_dataset :
      (detection : Detection)
      → version.definition.detected_for ≡ some detection
      → detection.dataset_id ≡ some dataset_id
      → (rule_type == "DUPLICATE") ≡ true
      → scope ≡ "DATASET_LEVEL"
      → column ≡ none
      → Target rule_type version db scope column dataset_id
  one_column :
      (detection : Detection) (column_id : ℕ)
      → version.definition.detected_for ≡ some detection
      → detection.dataset_id ≡ some dataset_id
      → detection.column_id ≡ some column_id
      → (rule_type == "DUPLICATE") ≡ false
      → (rule_type == "CROSS_COLUMN") ≡ false
      → scope ≡ "SINGLE_COLUMN"
      → column ≡ some column_id
      → any (λ (k, col). column_id == k && col.dataset_id == dataset_id) db.columns ≡ true
      → Target rule_type version db scope column dataset_id

-- The pending rule becomes active together with an enabled assignment of its current version.
pub record Promoted (c : Context) (id : ℕ) (db : Database) (outcome : Result (Unit {0}) × Database)
    : Type 0 where
  pub rule : Rule
  pub known : lookup id db.rules ≡ some rule
  pub was_pending : rule.status ≡ RuleStatus.pending_review
  pub version_id : ℕ
  pub version : RuleVersion
  pub current :
      filter (λ (_, v). v.rule_id == id && v.is_current) db.rule_versions
      ≡ (version_id, version) ∷ []
  pub assignment_id : ℕ
  pub scope : String
  pub column_id : Option ℕ
  pub dataset_id : ℕ
  pub target : Target rule.rule_type version db scope column_id dataset_id
  pub dataset : Dataset
  pub dataset_known : lookup dataset_id db.datasets ≡ some dataset
  pub succeeded : outcome.0 ≡ ok tt
  pub rules_after :
      outcome.1.rules
      ≡ update id (λ r. record r { status = RuleStatus.active; updated_at = some c.now }) db.rules
  pub versions_after : outcome.1.rule_versions ≡ db.rule_versions
  pub keys_after : db.next_id ≤ outcome.1.next_id
  pub assigned :
      outcome.1.rule_assignments
      ≡ add assignment_id
          (record {
            rule_version_id = version_id;
            dataset_id = dataset_id;
            assignment_scope = scope;
            column_id = column_id;
            cross_column_key = none;
            template_id = none;
            is_enabled = true;
            assigned_by = some c.actor;
            updated_at = none;
          })
          db.rule_assignments

resolved-Target :
    (rule_type : String) (version : RuleVersion) (db : Database) (found : Option Detection)
    → version.definition.detected_for ≡ found
    → (scope : String) (column : Option ℕ) (dataset_id : ℕ)
    → resolve_promotion_assignment rule_type found ≡ some (scope, column, dataset_id)
    → has_valid_column dataset_id column db ≡ true
    → Target rule_type version db scope column dataset_id
unfolding resolve_promotion_assignment
resolved-Target rule_type version db none e scope column dataset_id h valid =
    absurd (ground (arith, h))
resolved-Target rule_type version db (some d) e scope column dataset_id h valid =
    elim (Option-cases d.dataset_id) [
      | inl q ↦ absurd (ground (arith, h, q))
      | inr (i, q) ↦ elim (Bool-cases (rule_type == "DUPLICATE")) [
        | inl whole ↦
            whole_dataset d e (ground (arith, h, q, whole)) whole (ground (arith, h, q, whole))
              (ground (arith, h, q, whole))
        | inr partial ↦ elim (Bool-cases (rule_type == "CROSS_COLUMN")) [
          | inl cross ↦ absurd (ground (arith, h, q, partial, cross))
          | inr single ↦ elim (Option-cases d.column_id) [
            | inl p ↦ absurd (ground (arith, h, q, partial, single, p))
            | inr (k, p) ↦
                let given : column ≡ some k = ground (arith, h, q, partial, single, p) in
                one_column d k e (ground (arith, h, q, partial, single, p)) p partial single
                  (ground (arith, h, q, partial, single, p)) given (ground (arith, valid, given))
          ]
        ]
      ]
    ]

pub pending_status : (s : RuleStatus) → is_pending_review s ≡ true → s ≡ RuleStatus.pending_review
pending_status RuleStatus.active h = cc
pending_status RuleStatus.disabled h = cc
pending_status RuleStatus.pending_review h = refl

module _ (c : Context) (id : ℕ) (db : Database) (r : Rule) (known : lookup id db.rules ≡ some r)
    (pending : is_pending_review r.status ≡ true) where
  promote_assigned :
      (k : ℕ) (v : RuleVersion)
      → current_versions id db.rule_versions ≡ (k, v) ∷ []
      → (scope : String) (column : Option ℕ) (dataset_id : ℕ)
      → resolve_promotion_assignment r.rule_type v.definition.detected_for
        ≡ some (scope, column, dataset_id)
      → Raised db (call (promote_rule c id) db) ⊎ Promoted c id db (call (promote_rule c id) db)
  unfolding promote_rule
  promote_assigned k v h scope column dataset_id e =
      elim (Option-cases (lookup dataset_id db.datasets)) [
        | inl d ↦ inl (app dataset_not_found, ground (arith, e, d))
        | inr (dataset, d) ↦ elim (Bool-cases (has_valid_column dataset_id column db)) [
          | inl valid ↦
              elim (Bool-cases (
                any (is_same_assignment (new_assignment c k dataset_id scope column none none))
                  db.rule_assignments)) [
                    | inl same ↦
                        inl (app duplicate_rule_assignment, ground (arith, e, d, valid, same))
                    | inr same ↦ inr (record {
                      rule = r;
                      known = known;
                      was_pending = pending_status r.status pending;
                      version_id = k;
                      version = v;
                      current = h;
                      assignment_id = db.next_id;
                      scope = scope;
                      column_id = column;
                      dataset_id = dataset_id;
                      target =
                          resolved-Target r.rule_type v db v.definition.detected_for refl scope
                            column dataset_id e valid;
                      dataset = dataset;
                      dataset_known = d;
                      succeeded = ground (arith, e, d, valid, same);
                      rules_after = ground (arith, e, d, valid, same);
                      versions_after = ground (arith, e, d, valid, same);
                      keys_after = ground (arith, e, d, valid, same);
                      assigned = ground (arith, e, d, valid, same);
                    })
                  ]
          | inr valid ↦ inl (app invalid_rule_assignment_scope, ground (arith, e, d, valid))
        ]
      ]

  promote_current :
      (rows : Table RuleVersion)
      → current_versions id db.rule_versions ≡ rows
      → Raised db (call (promote_rule c id) db) ⊎ Promoted c id db (call (promote_rule c id) db)
  unfolding promote_rule
  promote_current [] h = inl (no_result, ground arith)
  promote_current ((k, v) ∷ []) h =
      elim (Option-cases (resolve_promotion_assignment r.rule_type v.definition.detected_for)) [
        | inl e ↦ inl (app rule_promotion_not_supported, ground (arith, e))
        | inr ((scope, column, dataset_id), e) ↦ promote_assigned k v h scope column dataset_id e
      ]
  promote_current (a ∷ b ∷ rows) h = inl (multiple_results, ground arith)

-- Promoting a rule either raises and leaves the database as it was, or the rule was PENDING_REVIEW
-- and the same commit makes it active and adds an enabled assignment of its one current version to
-- the dataset that its detection names, which exists: to the whole dataset if its type is DUPLICATE,
-- and otherwise, its type not being CROSS_COLUMN, to the column that the detection names, which is a
-- column of that dataset.
pub promote_effect :
    (c : Context) (id : ℕ) (db : Database)
    → Raised db (call (promote_rule c id) db) ⊎ Promoted c id db (call (promote_rule c id) db)
unfolding promote_rule
promote_effect c id db = elim (Option-cases (lookup id db.rules)) [
  | inl e ↦ inl (app rule_not_found, ground (arith, e))
  | inr (r, e) ↦ elim (Bool-cases (is_pending_review r.status)) [
    | inl p ↦ promote_current c id db r e p (current_versions id db.rule_versions) refl
    | inr p ↦ inl (app invalid_rule_review_transition, ground (arith, e, p))
  ]
]
