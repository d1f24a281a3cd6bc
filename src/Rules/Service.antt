-- ===== src/Rules/Service.antt =====
-- app/modules/rules/service.py: `RulesService`
use datacraft_backend.Prelude.{
  ℕ, ◌+◌, String, Bool, true, false, not, ◌&&◌, ◌||◌, List, [], ◌∷◌, Option, none, some, Table,
  lookup, add, update, ◌==◌, nat_eq, string_eq, if◌then◌else◌, any, filter,
}
use datacraft_backend.Core.Database.{Database}
use datacraft_backend.Core.Exceptions.{
  app, integrity_error, dataset_not_found, invalid_rule_assignment_scope,
  invalid_rule_review_transition, rule_not_found, rule_promotion_not_supported,
  unsupported_rule_type,
}
use datacraft_backend.Core.Session.{
  Transaction, Context, pure, gets, or_raise, one_or_none, exactly_one, raise_if, modify, commit,
  new_id, ◌>>=◌, ◌>>◌,
}
use datacraft_backend.Core.Text.{Text, text_eq}
use datacraft_backend.Models.Rules.{
  RuleStatus, Rule, Detection, Definition, RuleVersion, is_pending_review,
}
use datacraft_backend.Models.Trail.{MetaValue, ActorType}
use datacraft_backend.Trail.Audit.{record_change}
use datacraft_backend.Rules.Assignments.{
  is_column_of, add_assignment, new_assignment, log_assignment,
}

-- `SUPPORTED_RULE_TYPES`
abbrev pub is_supported : String → Bool
is_supported t =
    t == "COMPLETENESS"
    || t == "UNIQUENESS"
    || t == "DUPLICATE"
    || t == "RANGE"
    || t == "PATTERN"
    || t == "CROSS_COLUMN"

-- `_REVIEW_REQUIRED_ORIGINS`
abbrev pub needs_review : String → Bool
needs_review origin = origin == "AI_RECOMMENDED" || origin == "PATTERN_DETECTED"

unfoldable pub get_rule : ℕ → Transaction Rule
get_rule id = do found ← gets (λ db. lookup id db.rules); or_raise (app rule_not_found) found

abbrev pub initial_status : String → RuleStatus
initial_status origin = if needs_review origin then RuleStatus.pending_review else RuleStatus.active

-- What a request to create a rule gives.
pub record RuleRequest : Type 0 where
  pub name : Text
  pub description : Option Text
  pub category : Option Text
  pub rule_type : String
  pub origin : String
  pub definition : Definition
  pub severity : String
  pub error_message_template : Option Text

abbrev pub new_rule : Context → RuleRequest → Rule
new_rule c q = record {
  name = q.name;
  description = q.description;
  category = q.category;
  rule_type = q.rule_type;
  origin = q.origin;
  status = initial_status q.origin;
  created_by = some c.actor;
  updated_at = none;
}

abbrev pub new_version : Context → ℕ → ℕ → Definition → String → Option Text → RuleVersion
new_version c rule_id number definition severity template = record {
  rule_id = rule_id;
  version_number = number;
  definition = definition;
  severity = severity;
  error_message_template = template;
  is_current = true;
  created_by = some c.actor;
}

-- the unique constraints `uq_rules_name` and `uq_rule_versions_rule_id_version_number`
abbrev pub is_named : Text → ℕ × Rule → Bool
is_named name (_, r) = r.name == name

abbrev pub is_numbered : ℕ → ℕ → ℕ × RuleVersion → Bool
is_numbered rule_id number (_, v) = v.rule_id == rule_id && v.version_number == number

-- The flush of a new rule is not guarded: a name that is taken raises IntegrityError.
unfoldable pub create_rule : Context → RuleRequest → Transaction ℕ
unfolding record_change
create_rule c q = do
  raise_if (not (is_supported q.rule_type)) (app unsupported_rule_type)
  id ← new_id
  taken ← gets (λ db. any (is_named q.name) db.rules)
  raise_if taken integrity_error
  modify (λ db. record db { rules = add id (new_rule c q) db.rules })
  version_id ← new_id
  modify (λ db. record db {
    rule_versions =
        add version_id (new_version c id 1 q.definition q.severity q.error_message_template)
          db.rule_versions;
  })
  record_change (some c.actor) ActorType.user "rule.created" "RULE" id []
      (("name", MetaValue.text q.name) ∷ ("rule_type", MetaValue.tag q.rule_type) ∷ []) []
  commit
  pure id

abbrev pub set_rule : ℕ → (Rule → Rule) → Transaction (Unit {0})
set_rule id f = modify λ db. record db { rules = update id f db.rules }

abbrev pub status_name : RuleStatus → String
status_name RuleStatus.active = "ACTIVE"
status_name RuleStatus.disabled = "DISABLED"
status_name RuleStatus.pending_review = "PENDING_REVIEW"

abbrev pub text_or_null : Option Text → MetaValue
text_or_null none = MetaValue.null
text_or_null (some t) = MetaValue.text t

abbrev pub rule_summary : Rule → List (String × MetaValue)
rule_summary r =
    ("description", text_or_null r.description)
    ∷ ("category", text_or_null r.category)
    ∷ ("status", MetaValue.tag (status_name r.status))
    ∷ []

-- `if x is not None: rule.y = x`
abbrev pub given : {A : Type 0} → Option A → A → A
given none old = old
given (some new) old = new

abbrev pub given_text : Option Text → Option Text → Option Text
given_text none old = old
given_text (some new) old = some new

abbrev pub updated_rule : Context → Option Text → Option Text → Option RuleStatus → Rule → Rule
updated_rule c description category status r = record r {
  description = given_text description r.description;
  category = given_text category r.category;
  status = given status r.status;
  updated_at = some c.now;
}

unfoldable pub update_rule :
    Context → ℕ → Option Text → Option Text → Option RuleStatus → Transaction (Unit {0})
unfolding get_rule record_change
update_rule c id description category status = do
  rule ← get_rule id
  set_rule id (updated_rule c description category status)
  record_change (some c.actor) ActorType.user "rule.updated" "RULE" id (rule_summary rule)
      (rule_summary (updated_rule c description category status rule)) []
  commit

-- `select(RuleVersion).where(RuleVersion.rule_id == rule.id, RuleVersion.is_current.is_(True))`
abbrev pub current_versions : ℕ → Table RuleVersion → Table RuleVersion
current_versions rule_id t = filter (λ (_, v). v.rule_id == rule_id && v.is_current) t

abbrev pub next_version_number : Option (ℕ × RuleVersion) → ℕ
next_version_number none = 1
next_version_number (some (_, v)) = v.version_number + 1

abbrev pub retire : Option (ℕ × RuleVersion) → Table RuleVersion → Table RuleVersion
retire none t = t
retire (some (id, _)) t = update id (λ v. record v { is_current = false }) t

unfoldable pub publish_version : Context → ℕ → Definition → String → Option Text → Transaction ℕ
unfolding get_rule record_change
publish_version c rule_id definition severity template = do
  get_rule rule_id
  rows ← gets (λ db. current_versions rule_id db.rule_versions)
  current ← one_or_none rows
  let number = next_version_number current
  id ← new_id
  taken ← gets (λ db. any (is_numbered rule_id number) db.rule_versions)
  raise_if taken integrity_error
  modify (λ db. record db {
    rule_versions =
        add id (new_version c rule_id number definition severity template)
          (retire current db.rule_versions);
  })
  record_change (some c.actor) ActorType.user "rule.version_published" "RULE" rule_id []
      (("version_number", MetaValue.count number) ∷ []) []
  commit
  pure id

-- `_resolve_promotion_assignment`: the scope, the column and the dataset; `none` is a
-- RulePromotionNotSupportedError.
unfoldable pub resolve_promotion_assignment :
    String → Option Detection → Option (String × Option ℕ × ℕ)
resolve_promotion_assignment rule_type none = none
resolve_promotion_assignment rule_type (some d) = elim d.dataset_id [
  | none ↦ none
  | some dataset_id ↦
      if rule_type == "DUPLICATE"
      then some ("DATASET_LEVEL", none, dataset_id)
      else if rule_type == "CROSS_COLUMN"
      then none
      else elim d.column_id [
        | none ↦ none
        | some column_id ↦ some ("SINGLE_COLUMN", some column_id, dataset_id)
      ]
]

abbrev pub reviewed : Context → RuleStatus → Rule → Rule
reviewed c status r = record r { status = status; updated_at = some c.now }

abbrev pub status_change : RuleStatus → List (String × MetaValue)
status_change status = ("status", MetaValue.tag (status_name status)) ∷ []

-- the column, if there is one, belongs to the dataset
abbrev pub has_valid_column : ℕ → Option ℕ → Database → Bool
has_valid_column dataset_id none db = true
has_valid_column dataset_id (some column_id) db = is_column_of dataset_id db.columns column_id

unfoldable pub promote_rule : Context → ℕ → Transaction (Unit {0})
unfolding get_rule add_assignment record_change
promote_rule c id = do
  rule ← get_rule id
  raise_if (not (is_pending_review rule.status)) (app invalid_rule_review_transition)
  rows ← gets (λ db. current_versions id db.rule_versions)
  version ← exactly_one rows
  target ←
      or_raise (app rule_promotion_not_supported)
        (resolve_promotion_assignment rule.rule_type version.1.definition.detected_for)
  dataset ← gets (λ db. lookup target.2 db.datasets)
  or_raise (app dataset_not_found) dataset
  valid ← gets (has_valid_column target.2 target.1)
  raise_if (not valid) (app invalid_rule_assignment_scope)
  set_rule id (reviewed c RuleStatus.active)
  assignment_id ← add_assignment (new_assignment c version.0 target.2 target.0 target.1 none none)
  record_change (some c.actor) ActorType.user "rule.promoted" "RULE" id
      (status_change RuleStatus.pending_review) (status_change RuleStatus.active) []
  log_assignment c assignment_id target.2 target.0
  commit

unfoldable pub dismiss_rule : Context → ℕ → Transaction (Unit {0})
unfolding get_rule record_change
dismiss_rule c id = do
  rule ← get_rule id
  raise_if (not (is_pending_review rule.status)) (app invalid_rule_review_transition)
  set_rule id (reviewed c RuleStatus.disabled)
  record_change (some c.actor) ActorType.user "rule.dismissed" "RULE" id
      (status_change RuleStatus.pending_review) (status_change RuleStatus.disabled) []
  commit
