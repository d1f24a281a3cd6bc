-- ===== src/Approval/Decide.antt =====
-- `ApprovalService.decide`: which issues a decision decides, and the status that it stores.
use datacraft_backend.Prelude.{
  ℕ, ◌+◌, ◌≡◌, ◌⊎◌, inl, inr, refl, sym, ◌∙◌, true, false, not, ◌||◌, List, [], ◌∷◌, ◌++◌, map,
  Option, some, arith, Table, lookup, add, update, lookup-update, length, nat_eq, string_eq,
  option_eq, ◌==◌, eq_of_beq, Bool-cases, Option-cases, if◌then◌else◌, is_empty, member,
  member-filter, nodup, dedup, subset, pair_eq, diff, member-dedup, member-append, member_of_subset,
  disjoint_intro, nodup-append, nodup-dedup, filter_ext, filter-filter,
}
use datacraft_backend.Core.Database.{Database, KeysBelow}
use datacraft_backend.Core.Exceptions.{
  Error, app, approval_request_not_found, issue_not_in_approval_scope,
}
use datacraft_backend.Core.Session.{Context, ok, err, call}
use datacraft_backend.Models.Trail.{ActorType, MetaValue}
use datacraft_backend.Core.Text.{Text}
use datacraft_backend.Models.Approval.{
  Decision, ApprovalRequest, ApprovalDecision, ApprovalDecisionIssue,
}
use datacraft_backend.Approval.Scope.{
  resolved_scope, decided_rows, decided_issue_ids, resolved_scope, decisions_of,
}
use datacraft_backend.Approval.Service.{
  decide, remaining_scope, decided_request, decision_issue, comment_metadata, decision_name,
}
use datacraft_backend.Approval.Decided.{
  RowsBelow, decided_rows-decide, KeysBelow-add, RowsBelow-add,
}

-- Keys come from the supply, so a key that is given out next is in none of the decision tables.
pub record IsSound (db : Database) : Type 0 where
  pub decisions_below : KeysBelow db.next_id db.approval_decisions
  pub rows_below : RowsBelow db.next_id db.approval_decision_issues

module _ (c : Context) (id : ℕ) (decision : Decision) (ids : List ℕ) (comment : Option Text) where
  abbrev pub new_decision : ApprovalDecision
  new_decision = record {
    approval_request_id = id;
    decision = decision;
    comment = comment;
    decided_by = c.actor;
  }

  abbrev decided_tables : Database → Table ApprovalDecision × List ApprovalDecisionIssue
  decided_tables db = (
    add db.next_id new_decision db.approval_decisions,
    db.approval_decision_issues ++ map (decision_issue db.next_id) (dedup ids),
  )

  -- The database after a decision that is accepted.
  abbrev pub decided_db : ApprovalRequest → Database → Database
  decided_db r db =
      let remaining = remaining_scope id r.review_run_id db in
      let (decisions, rows) = decided_tables db in
      let all_decisions = map (λ row. row.1.decision) (decisions_of id decisions) in
      record db {
        next_id = db.next_id + 1;
        approval_decisions = decisions;
        approval_decision_issues = rows;
        approval_requests =
            update id (decided_request c all_decisions (diff remaining (dedup ids)))
              db.approval_requests;
        audit_events =
            db.audit_events
            ++ record {
              actor_id = some c.actor;
              actor_type = ActorType.user;
              action = "approval_request.decided";
              entity_type = "APPROVAL_REQUEST";
              entity_id = id;
              before_value = [];
              after_value = [];
              audit_metadata =
                  ("decision", MetaValue.tag (decision_name decision))
                  ∷ ("issue_count", MetaValue.count (length (dedup ids)))
                  ∷ comment_metadata comment;
            }
              ∷ [];
      }

  abbrev pub Accepted : Database → ApprovalRequest → Type 0
  Accepted db r =
      (lookup id db.approval_requests ≡ some r)
      × (is_empty (dedup ids) ≡ false)
      × (subset (dedup ids) (remaining_scope id r.review_run_id db) ≡ true)

  pub accepted_lem :
      (db : Database) (r : ApprovalRequest)
      → Accepted db r
      → call (decide c id decision ids comment) db ≡ (ok tt, decided_db r db)
  unfolding decide
  accepted_lem db r (e, e1, e2) = ground arith

  -- A call either raises and leaves the database alone, or is accepted.
  decide-cases :
      (db : Database)
      → ((e : Error) × (call (decide c id decision ids comment) db ≡ (err e, db)))
        ⊎ ((r : ApprovalRequest) × Accepted db r
            × (call (decide c id decision ids comment) db ≡ (ok tt, decided_db r db)))
  unfolding decide
  decide-cases db = elim (Option-cases (lookup id db.approval_requests)) [
    | inl e ↦ inl (app approval_request_not_found, ground arith)
    | inr (r, e) ↦ elim (Bool-cases (is_empty (dedup ids))) [
      | inl e1 ↦ inl (app issue_not_in_approval_scope, ground arith)
      | inr e1 ↦ elim (Bool-cases (subset (dedup ids) (remaining_scope id r.review_run_id db))) [
        | inl e2 ↦ inr (r, (e, e1, e2), accepted_lem db r (e, e1, e2))
        | inr e2 ↦ inl (app issue_not_in_approval_scope, ground arith)
      ]
    ]
  ]

-- A call that ended well, with the database that it left.
module _ (c : Context) (id : ℕ) (decision : Decision) (ids : List ℕ) (comment : Option Text)
    (db db' : Database) (done : call (decide c id decision ids comment) db ≡ (ok tt, db')) where
  pub decide_inverse :
      (r : ApprovalRequest) × Accepted c id decision ids comment db r
      × (db' ≡ decided_db c id decision ids comment r db)
  decide_inverse = elim (decide-cases c id decision ids comment db) [
    | inl (e, p) ↦ absurd (cc)
    | inr (r, acc, p) ↦ (r, acc, cc)
  ]

  decided_rows-decided :
      IsSound db
      → (j : ℕ)
      → decided_rows j db'.approval_decisions db'.approval_decision_issues
        ≡ decided_rows j db.approval_decisions db.approval_decision_issues
          ++ (if id == j then dedup ids else [])
  decided_rows-decided sound j =
      let (r, acc, e) = decide_inverse in
      rw e (
        decided_rows-decide db.next_id (new_decision c id decision ids comment) j
          db.approval_decisions db.approval_decision_issues (dedup ids) sound.decisions_below
          sound.rows_below)

  -- After an accepted decision on sound tables, the decided issues of the request are those of
  -- before and those that the call names, and the decided issues of every other request are as
  -- before.
  pub decide_scope :
      IsSound db
      → (j i : ℕ)
      → member i (decided_issue_ids j db')
        ≡ (member i (decided_issue_ids j db) || (if id == j then member i ids else false))
  unfolding decided_issue_ids
  decide_scope sound j i =
      simp (member-dedup, decided_rows-decided sound j, member-append)
        (ground (arith, member-dedup i ids))

  -- The issues that an accepted decision names lay in the resolved scope of the review run of the
  -- request, and were not decided under the request before.
  pub decide_fresh :
      (i : ℕ)
      → member i ids ≡ true
      → (r : ApprovalRequest) × (lookup id db.approval_requests ≡ some r)
        × (member i (resolved_scope r.review_run_id db).0 ≡ true)
        × (member i (decided_issue_ids id db) ≡ false)
  unfolding remaining_scope
  decide_fresh i m =
      let (r, acc, e) = decide_inverse in
      let inside =
        member_of_subset i (dedup ids) (remaining_scope id r.review_run_id db) acc.2
          (rw member-dedup m) in
      let scope = dedup (resolved_scope r.review_run_id db).0 in
      let split = member-filter i (λ x. not (member x (decided_issue_ids id db))) scope in
      (
        r,
        acc.0,
        ground (arith, inside, split, member-dedup i (resolved_scope r.review_run_id db).0),
        ground (arith, inside, split),
      )

  pub remaining-decided :
      IsSound db
      → (run_id : ℕ)
      → remaining_scope id run_id db' ≡ diff (remaining_scope id run_id db) (dedup ids)
  unfolding remaining_scope
  remaining-decided sound run_id =
      let same : resolved_scope run_id db' ≡ resolved_scope run_id db =
        (let (r, acc, e) = decide_inverse in rw e (unfold resolved_scope in refl)) in
      rw same (
        filter_ext _ _ (dedup (resolved_scope run_id db).0)
          (λ i. ground (arith, decide_scope sound id i, member-dedup i ids))
        ∙ sym (
            filter-filter (λ i. not (member i (dedup ids)))
              (λ i. not (member i (decided_issue_ids id db))) (dedup (resolved_scope run_id db).0)))

  -- The decisions recorded under the request, in the order in which they were made.
  abbrev pub recorded : List Decision
  recorded = map (λ row. row.1.decision) (decisions_of id db'.approval_decisions)

  pub decide_stored :
      IsSound db
      → (r : ApprovalRequest) × (lookup id db.approval_requests ≡ some r)
        × (lookup id db'.approval_requests
            ≡ some (decided_request c recorded (remaining_scope id r.review_run_id db') r))
  decide_stored sound =
      let (r, acc, e) = decide_inverse in
      let decisions =
        decisions_of id
          (add db.next_id (new_decision c id decision ids comment) db.approval_decisions) in
      let after =
        decided_request c (map (λ row. row.1.decision) decisions)
          (diff (remaining_scope id r.review_run_id db) (dedup ids)) in
      (
        r,
        acc.0,
        rw (remaining-decided sound r.review_run_id)
            (rw e (ground (arith, lookup-update id id after db.approval_requests, acc.0))),
      )

  -- The tables stay sound.
  pub decide-IsSound : IsSound db → IsSound db'
  decide-IsSound sound =
      let (r, acc, e) = decide_inverse in
      rw e (record {
        decisions_below =
            KeysBelow-add db.next_id (new_decision c id decision ids comment) db.approval_decisions
              sound.decisions_below;
        rows_below =
            RowsBelow-add db.next_id db.approval_decision_issues (dedup ids) sound.rows_below;
      })

  undecided :
      (i : ℕ)
      → member i (decided_rows id db.approval_decisions db.approval_decision_issues) ≡ true
      → member i (dedup ids) ≡ false
  undecided i m = elim (Bool-cases (member i ids)) [
    | inl named ↦
        let (r, _, _, fresh) = decide_fresh i named in
        absurd (
          unfold decided_issue_ids in
          ground (
            arith,
            fresh,
            member-dedup i (decided_rows id db.approval_decisions db.approval_decision_issues),
          ))
    | inr other ↦ rw member-dedup other
  ]

  -- If no issue was recorded twice under a request before an accepted decision on sound tables, on
  -- that request or another, none is afterwards.
  pub decide_once :
      IsSound db
      → (j : ℕ) → nodup (decided_rows j db.approval_decisions db.approval_decision_issues) ≡ true
      → nodup (decided_rows j db'.approval_decisions db'.approval_decision_issues) ≡ true
  decide_once sound j h =
      let rows = decided_rows j db.approval_decisions db.approval_decision_issues in
      rw (decided_rows-decided sound j) (elim (Bool-cases (id == j)) [
        | inl e ↦ rw e (
            nodup-append rows (dedup ids) h (nodup-dedup ids)
              (disjoint_intro rows (dedup ids) (λ i m. undecided i (rw (eq_of_beq id j e) m))))
        | inr e ↦ rw e (nodup-append rows [] h refl (disjoint_intro rows [] (λ i m. refl)))
      ])
