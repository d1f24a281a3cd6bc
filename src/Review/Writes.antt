-- ===== src/Review/Writes.antt =====
-- app/modules/review/decision_service.py: the private methods that the decisions are composed of.
use datacraft_backend.Prelude.{
  ℕ, String, Bool, true, false, not, List, [], ◌∷◌, Option, none, some, Table, lookup, add, update,
  update_where, ◌==◌, nat_eq, if◌then◌else◌, filter, is_empty,
}
use datacraft_backend.Core.Exceptions.{
  app, attribute_error, invalid_review_status_transition, issue_not_found,
  suggestion_already_decided, suggestion_not_found,
}
use datacraft_backend.Core.Session.{
  Transaction, Context, pure, gets, or_raise, one_or_none, raise_if, modify, new_id, ◌>>=◌, ◌>>◌,
}
use datacraft_backend.Core.Text.{Text, strip}
use datacraft_backend.Models.Review.{
  ReviewRun, Issue, IssueStatus, CorrectionSuggestion, Correction, CorrectionStatus, ValueSource,
  is_ready_for_approval,
}
use datacraft_backend.Models.Validation.{ValidationFailure}
use datacraft_backend.Models.Rules.{RuleAssignment, RuleVersion, Rule}
use datacraft_backend.Models.Trail.{MetaValue}
use datacraft_backend.Trail.Lineage.{edge, record_edge}

-- `status in _TERMINAL_STATUSES`
abbrev pub is_terminal : CorrectionStatus → Bool
is_terminal CorrectionStatus.rejected = true
is_terminal CorrectionStatus.skipped = true
is_terminal _ = false

unfoldable pub is_blank : Option Text → Bool
unfolding strip
is_blank none = true
is_blank (some value) = is_empty (strip value)

unfoldable pub get_suggestion : ℕ → Transaction CorrectionSuggestion
get_suggestion id = do
  found ← gets (λ db. lookup id db.correction_suggestions)
  or_raise (app suggestion_not_found) found

unfoldable pub get_issue : ℕ → Transaction Issue
get_issue id = do found ← gets (λ db. lookup id db.issues); or_raise (app issue_not_found) found

-- The corrections of an issue; `uq_corrections_issue_id` allows one.
abbrev pub corrections_of : ℕ → Table Correction → Table Correction
corrections_of issue_id t = filter (λ (_, r). r.issue_id == issue_id) t

unfoldable pub existing_correction : ℕ → Transaction (Option (ℕ × Correction))
existing_correction issue_id = do
  rows ← gets (λ db. corrections_of issue_id db.corrections)
  one_or_none rows

unfoldable pub check_not_terminal : Option (ℕ × Correction) → Transaction (Unit {0})
check_not_terminal none = pure tt
check_not_terminal (some (_, r)) = raise_if (is_terminal r.status) (app suggestion_already_decided)

abbrev pub is_frozen : Option ReviewRun → Bool
is_frozen none = false
is_frozen (some run) = is_ready_for_approval run.status

-- `_check_review_run_not_ready_for_approval`
unfoldable pub check_run_open : ℕ → Transaction (Unit {0})
check_run_open review_run_id = do
  run ← gets (λ db. lookup review_run_id db.review_runs)
  raise_if (is_frozen run) (app invalid_review_status_transition)

-- The chain of lookups of `_resolve_rule_type`; `none` where a row is missing.
unfoldable pub rule_type_of :
    Table ValidationFailure
    → Table RuleAssignment
    → Table RuleVersion
    → Table Rule
    → Issue
    → Option String
rule_type_of failures assignments versions rules issue =
    elim (lookup issue.validation_failure_id failures) [
      | none ↦ none
      | some failure ↦ elim (lookup failure.rule_assignment_id assignments) [
        | none ↦ none
        | some assignment ↦ elim (lookup assignment.rule_version_id versions) [
          | none ↦ none
          | some version ↦ elim (lookup version.rule_id rules) [
            | none ↦ none
            | some rule ↦ some rule.rule_type
          ]
        ]
      ]
    ]

-- `_resolve_rule_type`: an attribute of a row that is not there is an `AttributeError`.
unfoldable pub resolve_rule_type : Issue → Transaction String
resolve_rule_type issue = do
  found ← gets (λ db.
      rule_type_of db.validation_failures db.rule_assignments db.rule_versions db.rules issue)
  or_raise attribute_error found

abbrev pub id_or_null : Option ℕ → MetaValue
id_or_null none = MetaValue.null
id_or_null (some id) = MetaValue.id id

unfoldable pub audit_metadata : ℕ → Issue → String → Transaction (List (String × MetaValue))
unfolding resolve_rule_type
audit_metadata issue_id issue decision = do
  rule_type ← resolve_rule_type issue
  pure (
      ("issue_id", MetaValue.id issue_id)
      ∷ ("column_id", id_or_null issue.column_id)
      ∷ ("rule_type", MetaValue.tag rule_type)
      ∷ ("decision", MetaValue.tag decision)
      ∷ [])

-- What a decision writes to the correction of its issue.
pub record Outcome : Type 0 where
  pub suggestion : Option ℕ
  pub final_value : Option Text
  pub value_source : Option ValueSource
  pub status : CorrectionStatus

abbrev pub skipped_outcome : Outcome
skipped_outcome = record {
  suggestion = none;
  final_value = none;
  value_source = none;
  status = CorrectionStatus.skipped;
}

abbrev pub first_correction : Context → ℕ → Outcome → Correction
first_correction c issue_id o = record {
  issue_id = issue_id;
  correction_suggestion_id = o.suggestion;
  final_value = o.final_value;
  value_source = o.value_source;
  status = o.status;
  decided_by = some c.actor;
  decided_at = some c.now;
  updated_at = none;
}

abbrev pub redecided : Context → Outcome → Correction → Correction
redecided c o r = record {
  issue_id = r.issue_id;
  correction_suggestion_id = o.suggestion;
  final_value = o.final_value;
  value_source = o.value_source;
  status = o.status;
  decided_by = some c.actor;
  decided_at = some c.now;
  updated_at = some c.now;
}

abbrev pub write_correction : Context → ℕ → Outcome → Option (ℕ × Correction) → Transaction ℕ
write_correction c issue_id o none = do
  id ← new_id
  modify λ db. record db { corrections = add id (first_correction c issue_id o) db.corrections }
  record_edge (edge "ISSUE" issue_id "CORRECTION" id "CORRECTED_BY")
  pure id
write_correction c issue_id o (some (id, _)) = do
  modify λ db. record db { corrections = update id (redecided c o) db.corrections }
  pure id

unfoldable pub upsert_correction : Context → ℕ → Outcome → Transaction ℕ
unfolding existing_correction record_edge
upsert_correction c issue_id o = do
  before ← existing_correction issue_id
  write_correction c issue_id o before

-- another suggestion of the same issue
abbrev pub is_other : ℕ → ℕ → ℕ × CorrectionSuggestion → Bool
is_other issue_id keep (id, r) = if r.issue_id == issue_id then not (id == keep) else false

unfoldable pub clear_other_selections : ℕ → ℕ → Transaction (Unit {0})
clear_other_selections issue_id keep = modify λ db. record db {
  correction_suggestions =
      update_where (is_other issue_id keep) (λ r. record r { is_selected = false })
        db.correction_suggestions;
}

-- the three assignments to the suggestion that was chosen
abbrev pub select_suggestion : Context → ℕ → Transaction (Unit {0})
select_suggestion c id = modify λ db. record db {
  correction_suggestions =
      update id
        (λ r. record r { is_selected = true; selected_by = some c.actor; selected_at = some c.now })
        db.correction_suggestions;
}

abbrev pub set_issue_status : Context → ℕ → IssueStatus → Transaction (Unit {0})
set_issue_status c id status = modify λ db. record db {
  issues = update id (λ r. record r { status = status; updated_at = some c.now }) db.issues;
}
