-- ===== src/Models/Rules.antt =====
-- app/db/models/rules.py and app/db/models/metadata.py
use datacraft_backend.Prelude.{
  ℕ, Bool, true, false, Option, nat_eq, string_eq, option_eq, String, pair_eq,
}
use datacraft_backend.Core.Text.{Text}

-- the CHECK constraint `ck_rules_status`
pub data RuleStatus : Type 0 where
  active disabled pending_review : RuleStatus

pub record Rule : Type 0 where
  pub name : Text
  pub description : Option Text
  pub category : Option Text
  pub rule_type : String
  pub origin : String
  pub status : RuleStatus
  pub created_by : Option ℕ
  pub updated_at : Option ℕ

-- The entry `_detected_for` of a definition, with its identifiers parsed.
pub record Detection : Type 0 where
  pub dataset_id : Option ℕ
  pub column_id : Option ℕ

-- The JSON object `definition`: that entry, and the others as the JSON text of the rest.
pub record Definition : Type 0 where
  pub detected_for : Option Detection
  pub parameters : Text

pub record RuleVersion : Type 0 where
  pub rule_id : ℕ
  pub version_number : ℕ
  pub definition : Definition
  pub severity : String
  pub error_message_template : Option Text
  pub is_current : Bool
  pub created_by : Option ℕ

pub record RuleAssignment : Type 0 where
  pub rule_version_id : ℕ
  pub dataset_id : ℕ
  pub assignment_scope : String
  pub column_id : Option ℕ
  pub cross_column_key : Option Text
  pub template_id : Option ℕ
  pub is_enabled : Bool
  pub assigned_by : Option ℕ
  pub updated_at : Option ℕ

pub record RuleAssignmentColumn : Type 0 where
  pub rule_assignment_id : ℕ
  pub column_id : ℕ
  pub ordinal : ℕ

pub record Dataset : Type 0 where
  pub schema_id : ℕ
  pub name : Text
  pub is_active : Bool
  pub key_strategy : String
  pub updated_at : Option ℕ

pub record DatasetKeyColumn : Type 0 where
  pub dataset_id : ℕ
  pub column_id : ℕ
  pub ordinal : ℕ

pub record Column : Type 0 where
  pub dataset_id : ℕ
  pub name : Text
  pub is_active : Bool
  pub is_primary_key : Bool

abbrev pub is_pending_review : RuleStatus → Bool
is_pending_review RuleStatus.pending_review = true
is_pending_review _ = false
