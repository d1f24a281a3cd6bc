-- ===== src/Core/Exceptions.antt =====
-- app/core/exceptions.py: the application's exceptions, their codes and HTTP statuses, and the
-- other Python exceptions that the services can meet.
use Prim.Native.Nat.{ℕ}
use Prim.Native.String.{String}

-- `class AppError` and its subclasses, one constructor for each.
pub data AppError : Type 0 where
  app_error not_found invalid_credentials account_locked invalid_refresh_token : AppError
  user_not_found email_already_exists permission_denied data_source_not_found : AppError
  data_source_name_already_exists connection_name_already_exists : AppError
  data_source_has_active_connections data_source_not_active connection_not_found : AppError
  connection_type_not_found credential_vault discovery_already_running dataset_not_found : AppError
  invalid_key_column_configuration job_not_found job_not_cancellable : AppError
  profiling_already_running dataset_not_active profile_run_not_found : AppError
  full_scan_exceeds_limit sample_size_exceeds_limit rule_not_found rule_version_not_found : AppError
  unsupported_rule_type invalid_rule_assignment_scope rule_assignment_not_found : AppError
  duplicate_rule_assignment invalid_rule_review_transition rule_promotion_not_supported : AppError
  validation_run_not_found validation_already_running review_run_not_found : AppError
  source_validation_run_incomplete issue_not_found suggestion_not_found : AppError
  suggestion_already_decided empty_final_value invalid_review_status_transition : AppError
  review_run_not_ready_for_submission approval_request_already_pending no_resolved_issues : AppError
  approval_request_not_found issue_not_in_approval_scope approval_not_approved : AppError
  no_eligible_issues staging_already_in_progress review_run_archived staging_run_not_found :
      AppError
  staging_record_not_found staging_record_count_exceeds_limit staging_run_not_eligible : AppError
  target_type_not_supported publish_already_in_progress drift_not_acknowledged : AppError
  invalid_target_path target_already_exists publish_run_not_found no_drift_to_acknowledge : AppError
  lineage_entity_not_found invalid_date_range ai_disabled ai_provider_unavailable : AppError
  ai_response_invalid ai_conversation_not_found ai_suggestion_not_found : AppError
  ai_prompt_version_not_found preview_source_unavailable staging_run_not_materialized : AppError
  preview_timeout : AppError

-- the class attribute `code`
unfoldable pub code : AppError → String
code app_error = "APP_ERROR"
code not_found = "NOT_FOUND"
code invalid_credentials = "INVALID_CREDENTIALS"
code account_locked = "ACCOUNT_LOCKED"
code invalid_refresh_token = "INVALID_REFRESH_TOKEN"
code user_not_found = "USER_NOT_FOUND"
code email_already_exists = "EMAIL_ALREADY_EXISTS"
code permission_denied = "PERMISSION_DENIED"
code data_source_not_found = "DATA_SOURCE_NOT_FOUND"
code data_source_name_already_exists = "DATA_SOURCE_NAME_ALREADY_EXISTS"
code connection_name_already_exists = "CONNECTION_NAME_ALREADY_EXISTS"
code data_source_has_active_connections = "DATA_SOURCE_HAS_ACTIVE_CONNECTIONS"
code data_source_not_active = "DATA_SOURCE_NOT_ACTIVE"
code connection_not_found = "CONNECTION_NOT_FOUND"
code connection_type_not_found = "CONNECTION_TYPE_NOT_FOUND"
code credential_vault = "CREDENTIAL_VAULT_ERROR"
code discovery_already_running = "DISCOVERY_ALREADY_RUNNING"
code dataset_not_found = "DATASET_NOT_FOUND"
code invalid_key_column_configuration = "INVALID_KEY_COLUMN_CONFIGURATION"
code job_not_found = "JOB_NOT_FOUND"
code job_not_cancellable = "JOB_NOT_CANCELLABLE"
code profiling_already_running = "PROFILING_ALREADY_RUNNING"
code dataset_not_active = "DATASET_NOT_ACTIVE"
code profile_run_not_found = "PROFILE_RUN_NOT_FOUND"
code full_scan_exceeds_limit = "FULL_SCAN_EXCEEDS_LIMIT"
code sample_size_exceeds_limit = "SAMPLE_SIZE_EXCEEDS_LIMIT"
code rule_not_found = "RULE_NOT_FOUND"
code rule_version_not_found = "RULE_VERSION_NOT_FOUND"
code unsupported_rule_type = "VALIDATION_UNSUPPORTED_RULE_TYPE"
code invalid_rule_assignment_scope = "INVALID_RULE_ASSIGNMENT_SCOPE"
code rule_assignment_not_found = "RULE_ASSIGNMENT_NOT_FOUND"
code duplicate_rule_assignment = "DUPLICATE_RULE_ASSIGNMENT"
code invalid_rule_review_transition = "INVALID_RULE_REVIEW_TRANSITION"
code rule_promotion_not_supported = "RULE_PROMOTION_NOT_SUPPORTED"
code validation_run_not_found = "VALIDATION_RUN_NOT_FOUND"
code validation_already_running = "VALIDATION_ALREADY_RUNNING"
code review_run_not_found = "REVIEW_RUN_NOT_FOUND"
code source_validation_run_incomplete = "SOURCE_VALIDATION_RUN_INCOMPLETE"
code issue_not_found = "ISSUE_NOT_FOUND"
code suggestion_not_found = "SUGGESTION_NOT_FOUND"
code suggestion_already_decided = "SUGGESTION_ALREADY_DECIDED"
code empty_final_value = "EMPTY_FINAL_VALUE"
code invalid_review_status_transition = "INVALID_REVIEW_STATUS_TRANSITION"
code review_run_not_ready_for_submission = "REVIEW_RUN_NOT_READY_FOR_SUBMISSION"
code approval_request_already_pending = "APPROVAL_REQUEST_ALREADY_PENDING"
code no_resolved_issues = "NO_RESOLVED_ISSUES"
code approval_request_not_found = "APPROVAL_REQUEST_NOT_FOUND"
code issue_not_in_approval_scope = "ISSUE_NOT_IN_APPROVAL_SCOPE"
code approval_not_approved = "APPROVAL_NOT_APPROVED"
code no_eligible_issues = "NO_ELIGIBLE_ISSUES"
code staging_already_in_progress = "STAGING_ALREADY_IN_PROGRESS"
code review_run_archived = "REVIEW_RUN_ARCHIVED"
code staging_run_not_found = "STAGING_RUN_NOT_FOUND"
code staging_record_not_found = "STAGING_RECORD_NOT_FOUND"
code staging_record_count_exceeds_limit = "STAGING_RECORD_COUNT_EXCEEDS_LIMIT"
code staging_run_not_eligible = "STAGING_RUN_NOT_ELIGIBLE"
code target_type_not_supported = "TARGET_TYPE_NOT_SUPPORTED"
code publish_already_in_progress = "PUBLISH_ALREADY_IN_PROGRESS"
code drift_not_acknowledged = "DRIFT_NOT_ACKNOWLEDGED"
code invalid_target_path = "INVALID_TARGET_PATH"
code target_already_exists = "TARGET_ALREADY_EXISTS"
code publish_run_not_found = "PUBLISH_RUN_NOT_FOUND"
code no_drift_to_acknowledge = "NO_DRIFT_TO_ACKNOWLEDGE"
code lineage_entity_not_found = "LINEAGE_ENTITY_NOT_FOUND"
code invalid_date_range = "INVALID_DATE_RANGE"
code ai_disabled = "AI_DISABLED"
code ai_provider_unavailable = "AI_PROVIDER_UNAVAILABLE"
code ai_response_invalid = "AI_RESPONSE_INVALID"
code ai_conversation_not_found = "AI_CONVERSATION_NOT_FOUND"
code ai_suggestion_not_found = "AI_SUGGESTION_NOT_FOUND"
code ai_prompt_version_not_found = "AI_PROMPT_VERSION_NOT_FOUND"
code preview_source_unavailable = "PREVIEW_SOURCE_UNAVAILABLE"
code staging_run_not_materialized = "STAGING_RUN_NOT_MATERIALIZED"
code preview_timeout = "PREVIEW_TIMEOUT"

-- the class attribute `status_code`, inherited from `NotFoundError` where a class sets none
unfoldable pub status_code : AppError → ℕ
status_code app_error = 500
status_code not_found = 404
status_code invalid_credentials = 401
status_code account_locked = 403
status_code invalid_refresh_token = 401
status_code user_not_found = 404
status_code email_already_exists = 409
status_code permission_denied = 403
status_code data_source_not_found = 404
status_code data_source_name_already_exists = 409
status_code connection_name_already_exists = 409
status_code data_source_has_active_connections = 409
status_code data_source_not_active = 409
status_code connection_not_found = 404
status_code connection_type_not_found = 404
status_code credential_vault = 502
status_code discovery_already_running = 409
status_code dataset_not_found = 404
status_code invalid_key_column_configuration = 422
status_code job_not_found = 404
status_code job_not_cancellable = 409
status_code profiling_already_running = 409
status_code dataset_not_active = 409
status_code profile_run_not_found = 404
status_code full_scan_exceeds_limit = 422
status_code sample_size_exceeds_limit = 422
status_code rule_not_found = 404
status_code rule_version_not_found = 404
status_code unsupported_rule_type = 422
status_code invalid_rule_assignment_scope = 422
status_code rule_assignment_not_found = 404
status_code duplicate_rule_assignment = 409
status_code invalid_rule_review_transition = 409
status_code rule_promotion_not_supported = 422
status_code validation_run_not_found = 404
status_code validation_already_running = 409
status_code review_run_not_found = 404
status_code source_validation_run_incomplete = 409
status_code issue_not_found = 404
status_code suggestion_not_found = 404
status_code suggestion_already_decided = 409
status_code empty_final_value = 422
status_code invalid_review_status_transition = 409
status_code review_run_not_ready_for_submission = 409
status_code approval_request_already_pending = 409
status_code no_resolved_issues = 409
status_code approval_request_not_found = 404
status_code issue_not_in_approval_scope = 409
status_code approval_not_approved = 409
status_code no_eligible_issues = 409
status_code staging_already_in_progress = 409
status_code review_run_archived = 409
status_code staging_run_not_found = 404
status_code staging_record_not_found = 404
status_code staging_record_count_exceeds_limit = 422
status_code staging_run_not_eligible = 409
status_code target_type_not_supported = 422
status_code publish_already_in_progress = 409
status_code drift_not_acknowledged = 409
status_code invalid_target_path = 422
status_code target_already_exists = 409
status_code publish_run_not_found = 404
status_code no_drift_to_acknowledge = 409
status_code lineage_entity_not_found = 404
status_code invalid_date_range = 422
status_code ai_disabled = 422
status_code ai_provider_unavailable = 503
status_code ai_response_invalid = 502
status_code ai_conversation_not_found = 404
status_code ai_suggestion_not_found = 404
status_code ai_prompt_version_not_found = 404
status_code preview_source_unavailable = 502
status_code staging_run_not_materialized = 409
status_code preview_timeout = 504

-- What a service call can raise: an `AppError`, SQLAlchemy's `MultipleResultsFound`, `NoResultFound`
-- or `IntegrityError`, the `AttributeError` of an attribute of `None`, or the `KeyError` of a missing key.
pub data Error : Type 0 where
  app : AppError → Error
  multiple_results no_result integrity_error attribute_error key_error : Error

-- the exception handlers: every other exception is answered by 500
unfoldable pub response_status : Error → ℕ
unfolding status_code
response_status (app e) = status_code e
response_status multiple_results = 500
response_status no_result = 500
response_status integrity_error = 500
response_status attribute_error = 500
response_status key_error = 500

unfoldable pub response_code : Error → String
unfolding code
response_code (app e) = code e
response_code multiple_results = "INTERNAL_SERVER_ERROR"
response_code no_result = "INTERNAL_SERVER_ERROR"
response_code integrity_error = "INTERNAL_SERVER_ERROR"
response_code attribute_error = "INTERNAL_SERVER_ERROR"
response_code key_error = "INTERNAL_SERVER_ERROR"
