-- ===== src/Trail/Audit.antt =====
-- app/modules/audit/service.py
use datacraft_backend.Prelude.{ℕ, String, List, [], ◌∷◌, ◌++◌, Option}
use datacraft_backend.Core.Database.{Database}
use datacraft_backend.Core.Session.{Transaction, modify}
use datacraft_backend.Models.Trail.{ActorType, MetaValue, AuditEvent}

abbrev pub log_event : AuditEvent → Database → Database
log_event e db = record db { audit_events = db.audit_events ++ e ∷ [] }

-- `AuditingService.record` with `before`, `after` and `metadata`; the caller commits. An argument
-- that is left out is the empty dictionary.
unfoldable pub record_change :
    Option ℕ
    → ActorType
    → String
    → String
    → ℕ
    → List (String × MetaValue)
    → List (String × MetaValue)
    → List (String × MetaValue)
    → Transaction (Unit {0})
record_change actor actor_type action entity_type entity_id before after metadata = modify (
    log_event (record {
      actor_id = actor;
      actor_type = actor_type;
      action = action;
      entity_type = entity_type;
      entity_id = entity_id;
      before_value = before;
      after_value = after;
      audit_metadata = metadata;
    }))

-- The same with `metadata` alone.
unfoldable pub record_event :
    Option ℕ → ActorType → String → String → ℕ → List (String × MetaValue) → Transaction (Unit {0})
unfolding record_change
record_event actor actor_type action entity_type entity_id metadata =
    record_change actor actor_type action entity_type entity_id [] [] metadata
