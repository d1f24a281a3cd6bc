-- ===== src/Trail/Edges.antt =====
-- Edges are a set: what is inserted again is not stored twice.
use datacraft_backend.Prelude.{
  ℕ, ◌≡◌, inl, inr, refl, ◌∙◌, Bool, true, false, ◌&&◌, ◌||◌, List, [], ◌∷◌, ◌++◌, arith, nat_eq,
  string_eq, option_eq, ◌==◌, beq_sym, eq_of_beq, Equality, Bool-cases, String, if◌then◌else◌,
  member, member-filter, nodup, pair_eq, nodup-append, disjoint_intro, member-append,
}
use datacraft_backend.Core.Database.{Database}
use datacraft_backend.Core.Session.{Session}
use datacraft_backend.Models.Trail.{LineageRecord, edge_eq}
use datacraft_backend.Trail.Lineage.{
  insert_edge, insert_edges, record_edges_bulk, get_upstream, get_downstream, get_both, is_child,
  is_parent,
}

or_false : (a : Bool) → a ≡ (a || false)
or_false a = ground arith

or_assoc : (a b c : Bool) → ((a || b) || c) ≡ (a || (b || c))
or_assoc a b c = ground arith

and_or : (a b c : Bool) → (a && (b || c)) ≡ ((a && b) || (a && c))
and_or a b c = ground arith

module _ {A : Type 0} ⦃e : Equality A⦄ where
  member_insert :
      (x y : A) (xs : List A)
      → member x (if member y xs then xs else xs ++ y ∷ []) ≡ (member x xs || x == y)
  member_insert x y xs = elim (Bool-cases (member y xs)) [
    | inl h ↦ elim (Bool-cases (x == y)) [
      | inl q ↦ rw (h, eq_of_beq x y q, h) refl
      | inr q ↦ rw (h, q) (ground arith)
    ]
    | inr h ↦ ground (arith, h, member-append x xs (y ∷ []), beq_sym x y)
  ]

  nodup_insert :
      (y : A) (xs : List A)
      → nodup xs ≡ true
      → nodup (if member y xs then xs else xs ++ y ∷ []) ≡ true
  nodup_insert y xs h = elim (Bool-cases (member y xs)) [
    | inl q ↦ rw q h
    | inr q ↦ rw q (
        nodup-append xs (y ∷ []) h refl (
          disjoint_intro xs (y ∷ []) (λ a m. elim (Bool-cases (a == y)) [
            | inl p ↦
                (let same : member y xs ≡ true = rw (← eq_of_beq a y p) m in absurd (cc (same, q)))
            | inr p ↦ ground (arith, p, beq_sym a y)
          ])))
  ]

inserted :
    (es edges : List LineageRecord) (x : LineageRecord)
    → member x (insert_edges es edges) ≡ (member x edges || member x es)
unfolding insert_edges insert_edge
inserted [] edges x = or_false (member x edges)
inserted (e ∷ es) edges x =
    inserted es (insert_edge e edges) x
    ∙ rw (member_insert x e edges) (or_assoc (member x edges) (x == e) (member x es))

inserted_once :
    (es edges : List LineageRecord) → nodup edges ≡ true → nodup (insert_edges es edges) ≡ true
unfolding insert_edges insert_edge
inserted_once [] edges h = h
inserted_once (e ∷ es) edges h = inserted_once es (insert_edge e edges) (nodup_insert e edges h)

-- A bulk insertion adds exactly the given edges, whatever was stored before, and where no edge was
-- stored twice, none is afterwards.
pub record_edges_bulk_lem :
    (es : List LineageRecord) (s : Session)
    → let after = (record_edges_bulk es s).1.current.lineage_records in
      ((x : LineageRecord) → member x after ≡ (member x s.current.lineage_records || member x es))
      × (nodup s.current.lineage_records ≡ true → nodup after ≡ true)
unfolding record_edges_bulk
record_edges_bulk_lem [] s = ((λ x. or_false (member x s.current.lineage_records)), (λ h. h))
record_edges_bulk_lem (e ∷ es) s =
    (inserted (e ∷ es) s.current.lineage_records, inserted_once (e ∷ es) s.current.lineage_records)

-- The edges in both directions are those upstream and those downstream.
get_both_lem :
    (entity_type : String) (id : ℕ) (db : Database) (x : LineageRecord)
    → member x (get_both entity_type id db)
      ≡ (member x (get_upstream entity_type id db) || member x (get_downstream entity_type id db))
unfolding get_both get_upstream get_downstream
get_both_lem entity_type id db x =
    rw
      (
        member-filter x (is_child entity_type id) db.lineage_records,
        member-filter x (is_parent entity_type id) db.lineage_records,
        member-filter x (λ e. is_child entity_type id e || is_parent entity_type id e)
            db.lineage_records,
      )
      (and_or (member x db.lineage_records) (is_child entity_type id x)
        (is_parent entity_type id x))
