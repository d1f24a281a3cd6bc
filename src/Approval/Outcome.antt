-- ===== src/Approval/Outcome.antt =====
-- What `ApprovalService.decide` makes of the status of a request and of its time of decision.
use datacraft_backend.Prelude.{
  ℕ, ◌≡◌, ◌⊎◌, inl, inr, refl, ap, true, false, not, List, [], ◌∷◌, ◌++◌, map, Option, some, arith,
  Table, lookup, add, All, nat_eq, string_eq, option_eq, beq_refl, Bool-cases, all, is_empty,
  member, member-filter, dedup, subset, pair_eq, is_empty-member, diff, member-dedup,
}
use datacraft_backend.Core.Database.{Database}
use datacraft_backend.Core.Session.{Context, ok, call}
use datacraft_backend.Core.Text.{Text}
use datacraft_backend.Models.Approval.{
  is_approve, ApprovalStatus, Decision, ApprovalRequest, ApprovalDecision,
}
use datacraft_backend.Approval.Status.{recompute_approval_request_status}
use datacraft_backend.Approval.Scope.{decisions_of}
use datacraft_backend.Approval.Service.{decide, remaining_scope, decided_request}
use datacraft_backend.Approval.Decide.{
  IsSound, new_decision, decided_db, accepted_lem, decide_inverse, remaining-decided, decide_stored,
  recorded,
}

-- What becomes of the status and of the time of decision, by what remains undecided.
pub data StatusAfter (c : Context) (decisions : List Decision) (remaining : List ℕ)
    (r r' : ApprovalRequest) : Type 0 where
  some_left :
      is_empty remaining ≡ false
      → r'.status ≡ ApprovalStatus.partially_approved
      → r'.decided_at ≡ r.decided_at
      → StatusAfter c decisions remaining r r'
  all_approved :
      is_empty remaining ≡ true
      → All (λ d. d ≡ Decision.approve) decisions
      → r'.status ≡ ApprovalStatus.approved
      → r'.decided_at ≡ some c.now
      → StatusAfter c decisions remaining r r'
  one_rejected :
      is_empty remaining ≡ true
      → (before after : List Decision) → decisions ≡ before ++ Decision.reject ∷ after
      → r'.status ≡ ApprovalStatus.rejected
      → r'.decided_at ≡ some c.now
      → StatusAfter c decisions remaining r r'

all_approve-cases :
    (ds : List Decision)
    → ((all is_approve ds ≡ true) × All (λ d. d ≡ Decision.approve) ds)
      ⊎ ((all is_approve ds ≡ false)
          × (before after : List Decision) × (ds ≡ before ++ Decision.reject ∷ after))
all_approve-cases [] = inl (refl, tt)
all_approve-cases (Decision.reject ∷ ds) = inr (refl, [], ds, refl)
all_approve-cases (Decision.approve ∷ ds) = elim (all_approve-cases ds) [
  | inl (e, h) ↦ inl (e, (refl, h))
  | inr (e, before, after, p) ↦
      inr (e, Decision.approve ∷ before, after, ap (λ x. Decision.approve ∷ x) p)
]

StatusAfter-decided :
    (c : Context) (decisions : List Decision) (remaining : List ℕ) (r : ApprovalRequest)
    → StatusAfter c decisions remaining r (decided_request c decisions remaining r)
unfolding recompute_approval_request_status
StatusAfter-decided c decisions remaining r = elim (Bool-cases (is_empty remaining)) [
  | inr q ↦ some_left q (rw q refl) (rw q refl)
  | inl q ↦ elim (all_approve-cases decisions) [
    | inl (e, h) ↦ all_approved q h (rw (q, e) refl) (rw q refl)
    | inr (e, before, after, p) ↦ one_rejected q before after p (rw (q, e) refl) (rw q refl)
  ]
]

decisions-add :
    (id k : ℕ) (d : ApprovalDecision) (t : Table ApprovalDecision)
    → d.approval_request_id ≡ id
    → map (λ (row : ℕ × ApprovalDecision). row.1.decision) (decisions_of id (add k d t))
      ≡ map (λ (row : ℕ × ApprovalDecision). row.1.decision) (decisions_of id t) ++ d.decision ∷ []
unfolding decisions_of
decisions-add id k d [] h = ground (arith, h, beq_refl id)
decisions-add id k d (row ∷ t) h = ground (arith, decisions-add id k d t h)

nonempty_diff :
    (i : ℕ) (xs ys : List ℕ)
    → member i xs ≡ true
    → member i ys ≡ false
    → is_empty (diff xs ys) ≡ false
nonempty_diff i xs ys inside outside = elim (Bool-cases (is_empty (diff xs ys))) [
  | inl none_left ↦ absurd (
      ground (
        arith,
        inside,
        outside,
        is_empty-member i (diff xs ys) none_left,
        member-filter i (λ x. not (member x ys)) xs,
      ))
  | inr q ↦ q
]

-- A call that ended well, with the database that it left.
module _ (c : Context) (id : ℕ) (decision : Decision) (ids : List ℕ) (comment : Option Text)
    (db db' : Database) (done : call (decide c id decision ids comment) db ≡ (ok tt, db')) where
  abbrev after_call : List Decision
  after_call = recorded c id decision ids comment db db' done

  recorded-decided :
      after_call
      ≡ map (λ row. row.1.decision) (decisions_of id db.approval_decisions) ++ decision ∷ []
  recorded-decided =
      let (r, acc, e) = decide_inverse c id decision ids comment db db' done in
      rw e (
        decisions-add id db.next_id (new_decision c id decision ids comment) db.approval_decisions
          refl)

  -- After an accepted decision on sound tables, the decisions recorded under the request are those of
  -- before and then this one. While issues of the scope remain undecided the request is
  -- PARTIALLY_APPROVED and keeps its time of decision; when none remains it is decided at the time of
  -- the call, APPROVED if all recorded decisions approve and REJECTED if one rejects.
  pub decide_status :
      IsSound db
      → (after_call
          ≡ map (λ row. row.1.decision) (decisions_of id db.approval_decisions) ++ decision ∷ [])
        × ((r r' : ApprovalRequest) × (lookup id db.approval_requests ≡ some r)
            × (lookup id db'.approval_requests ≡ some r')
            × StatusAfter c after_call (remaining_scope id r.review_run_id db') r r')
  decide_status sound =
      let (r, before, after) = decide_stored c id decision ids comment db db' done sound in
      (
        recorded-decided,
        (
          r,
          _,
          before,
          after,
          StatusAfter-decided c after_call (remaining_scope id r.review_run_id db') r,
        ),
      )

module _ (c : Context) (id : ℕ) (decision : Decision) (ids : List ℕ) (comment : Option Text) where
  -- A decision on undecided issues of the scope, and on at least one of them, is accepted whatever the
  -- status of the request, and while another issue remains undecided it makes the request
  -- PARTIALLY_APPROVED, that is, open again if it was APPROVED.
  pub decide_reopens :
      (db : Database) (r : ApprovalRequest) (i : ℕ)
      → IsSound db
      → lookup id db.approval_requests ≡ some r
      → is_empty (dedup ids) ≡ false
      → subset (dedup ids) (remaining_scope id r.review_run_id db) ≡ true
      → member i (remaining_scope id r.review_run_id db) ≡ true
      → member i ids ≡ false
      → (db' : Database) × (r' : ApprovalRequest) × (call (decide c id decision ids comment) db
          ≡ (ok tt, db'))
        × (lookup id db'.approval_requests ≡ some r')
        × (r'.status ≡ ApprovalStatus.partially_approved)
  unfolding recompute_approval_request_status
  decide_reopens db r i sound found some_ids inside left other =
      let db' = decided_db c id decision ids comment r db in
      let done = accepted_lem c id decision ids comment db r (found, some_ids, inside) in
      let (r1, before, after) = decide_stored c id decision ids comment db db' done sound in
      let same : r1 ≡ r = cc (before, found) in
      let still : is_empty (remaining_scope id r.review_run_id db') ≡ false =
        rw (remaining-decided c id decision ids comment db db' done sound r.review_run_id) (
          nonempty_diff i (remaining_scope id r.review_run_id db) (dedup ids) left
            (rw member-dedup other)) in
      (db', _, done, after, rw same (rw still refl))
