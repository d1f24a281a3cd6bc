-- ===== src/Models/Trail.antt =====
-- app/db/models/audit.py and app/db/models/lineage.py
use datacraft_backend.Prelude.{
  ℕ, String, Bool, true, ◌&&◌, ◌≡◌, ◌↔◌, List, Option, arith, Equality, ◌==◌, nat_eq, string_eq,
}
use datacraft_backend.Core.Text.{Text}

pub data ActorType : Type 0 where
  user system ai : ActorType

-- A value of `audit_metadata`: an identifier, a count, a text, a list of identifiers, or null.
pub data MetaValue : Type 0 where
  id count : ℕ → MetaValue
  text : Text → MetaValue
  tag : String → MetaValue
  ids : List ℕ → MetaValue
  null : MetaValue

pub record AuditEvent : Type 0 where
  pub actor_id : Option ℕ
  pub actor_type : ActorType
  pub action : String
  pub entity_type : String
  pub entity_id : ℕ
  pub before_value : List (String × MetaValue)
  pub after_value : List (String × MetaValue)
  pub audit_metadata : List (String × MetaValue)

pub record LineageRecord : Type 0 where
  pub parent_entity_type : String
  pub parent_entity_id : ℕ
  pub child_entity_type : String
  pub child_entity_id : ℕ
  pub relationship_type : String

abbrev edge_beq : LineageRecord → LineageRecord → Bool
edge_beq a b =
    a.parent_entity_type == b.parent_entity_type
    && a.parent_entity_id == b.parent_entity_id
    && a.child_entity_type == b.child_entity_type
    && a.child_entity_id == b.child_entity_id
    && a.relationship_type == b.relationship_type

pub edge_beq_iff : (a b : LineageRecord) → (edge_beq a b ≡ true) ↔ (a ≡ b)
edge_beq_iff a b = ground (
  arith,
  string_eq.beq_iff a.parent_entity_type b.parent_entity_type,
  string_eq.beq_iff a.child_entity_type b.child_entity_type,
  string_eq.beq_iff a.relationship_type b.relationship_type,
)

-- the columns of the unique constraint `uq_lineage_records_edge`
instance abbrev pub edge_eq : Equality LineageRecord
edge_eq = record { beq = edge_beq; beq_iff = edge_beq_iff }
