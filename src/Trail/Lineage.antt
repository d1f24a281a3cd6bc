-- ===== src/Trail/Lineage.antt =====
-- app/modules/lineage/service.py
use datacraft_backend.Prelude.{
  ℕ, String, Bool, ◌&&◌, ◌||◌, List, [], ◌∷◌, ◌++◌, ◌==◌, nat_eq, string_eq, if◌then◌else◌, member,
  filter, is_empty,
}
use datacraft_backend.Core.Database.{Database}
use datacraft_backend.Core.Exceptions.{app, lineage_entity_not_found}
use datacraft_backend.Core.Session.{Transaction, modify, pure, gets, raise_if, ◌>>=◌, ◌>>◌}
use datacraft_backend.Models.Trail.{LineageRecord, edge_eq}

-- `INSERT ... ON CONFLICT DO NOTHING` of one row and of a list of rows
unfoldable pub insert_edge : LineageRecord → List LineageRecord → List LineageRecord
insert_edge e edges = if member e edges then edges else edges ++ e ∷ []

unfoldable pub insert_edges : List LineageRecord → List LineageRecord → List LineageRecord
unfolding insert_edge
insert_edges [] edges = edges
insert_edges (e ∷ es) edges = insert_edges es (insert_edge e edges)

abbrev pub edge : String → ℕ → String → ℕ → String → LineageRecord
edge p_type p_id c_type c_id rel = record {
  parent_entity_type = p_type;
  parent_entity_id = p_id;
  child_entity_type = c_type;
  child_entity_id = c_id;
  relationship_type = rel;
}

unfoldable pub record_edge : LineageRecord → Transaction (Unit {0})
record_edge e = modify λ db. record db { lineage_records = insert_edge e db.lineage_records }

-- `if not edges: return`
abbrev pub add_edges : List LineageRecord → List LineageRecord → List LineageRecord
add_edges es edges = if is_empty es then edges else insert_edges es edges

unfoldable pub record_edges_bulk : List LineageRecord → Transaction (Unit {0})
record_edges_bulk es = modify λ db. record db { lineage_records = add_edges es db.lineage_records }

abbrev pub is_child : String → ℕ → LineageRecord → Bool
is_child entity_type entity_id e =
    e.child_entity_type == entity_type && e.child_entity_id == entity_id

abbrev pub is_parent : String → ℕ → LineageRecord → Bool
is_parent entity_type entity_id e =
    e.parent_entity_type == entity_type && e.parent_entity_id == entity_id

unfoldable pub get_upstream : String → ℕ → Database → List LineageRecord
get_upstream entity_type entity_id db = filter (is_child entity_type entity_id) db.lineage_records

unfoldable pub get_downstream : String → ℕ → Database → List LineageRecord
get_downstream entity_type entity_id db =
    filter (is_parent entity_type entity_id) db.lineage_records

unfoldable pub get_both : String → ℕ → Database → List LineageRecord
get_both entity_type entity_id db =
    filter (λ e. is_child entity_type entity_id e || is_parent entity_type entity_id e)
      db.lineage_records

-- A direction other than "up" and "down" asks for both.
unfoldable pub get_edges_for_direction : String → ℕ → String → Transaction (List LineageRecord)
unfolding get_upstream get_downstream get_both
get_edges_for_direction entity_type entity_id direction = do
  both ← gets (get_both entity_type entity_id)
  raise_if (is_empty both) (app lineage_entity_not_found)
  upstream ← gets (get_upstream entity_type entity_id)
  downstream ← gets (get_downstream entity_type entity_id)
  pure (if direction == "up" then upstream else if direction == "down" then downstream else both)
