-- ===== src/Examples/Edges.antt =====
-- Edges inserted twice.
use datacraft_backend.Prelude.{
  ◌≡◌, true, ◌||◌, List, [], ◌∷◌, nat_eq, string_eq, option_eq, member, nodup, pair_eq,
}
use datacraft_backend.Core.Session.{Session}
use datacraft_backend.Models.Trail.{LineageRecord, edge_eq}
use datacraft_backend.Trail.Lineage.{edge, record_edges_bulk}
use datacraft_backend.Trail.Edges.{record_edges_bulk_lem}
use datacraft_backend.Examples.Data.{empty_db}

abbrev derived : LineageRecord
derived = edge "REVIEW_RUN" 1 "ISSUE" 2 "DERIVED_FROM"

abbrev corrected : LineageRecord
corrected = edge "ISSUE" 2 "CORRECTION" 3 "CORRECTED_BY"

abbrev start : Session
start =
    let db = record empty_db { lineage_records = derived ∷ [] } in
    record { committed = db; current = db }

abbrev stored : List LineageRecord
stored = (record_edges_bulk (derived ∷ corrected ∷ corrected ∷ []) start).1.current.lineage_records

record_edges_bulk_lem_example :
    ((x : LineageRecord)
      → member x stored
        ≡ (member x (derived ∷ []) || member x (derived ∷ corrected ∷ corrected ∷ [])))
    × (nodup (derived ∷ []) ≡ true → nodup stored ≡ true)
record_edges_bulk_lem_example = record_edges_bulk_lem (derived ∷ corrected ∷ corrected ∷ []) start
