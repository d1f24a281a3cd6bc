-- ===== src/Approval/Decided.antt =====
-- The decided issues of a request, before and after a decision is added.
use datacraft_backend.Prelude.{
  ℕ, ◌<◌, ◌≡◌, refl, false, ◌||◌, List, [], ◌∷◌, ◌++◌, map, Table, add, ◌==◌, nat_eq, arith,
  if◌then◌else◌, All, ◌+◌,
}
use datacraft_backend.Core.Database.{KeysBelow}
use datacraft_backend.Models.Approval.{ApprovalDecision, ApprovalDecisionIssue}
use datacraft_backend.Approval.Scope.{belongs_to, decided_rows}
use datacraft_backend.Approval.Service.{decision_issue}

-- Every key of the two decision tables was given out before `n`.
abbrev pub RowsBelow : ℕ → List ApprovalDecisionIssue → Type 0
RowsBelow n rows = All (λ r. r.approval_decision_id < n) rows

pub decided_rows-append :
    (j : ℕ) (ds : Table ApprovalDecision) (xs ys : List ApprovalDecisionIssue)
    → decided_rows j ds (xs ++ ys) ≡ decided_rows j ds xs ++ decided_rows j ds ys
unfolding decided_rows
decided_rows-append j ds [] ys = refl
decided_rows-append j ds (x ∷ xs) ys = ground (arith, decided_rows-append j ds xs ys)

module _ (n : ℕ) (d : ApprovalDecision) where
  belongs_to-add :
      (j k : ℕ) (ds : Table ApprovalDecision)
      → belongs_to j (add n d ds) k
        ≡ (belongs_to j ds k || (if n == k then d.approval_request_id == j else false))
  belongs_to-add j k [] = ground arith
  belongs_to-add j k (row ∷ ds) = ground (arith, belongs_to-add j k ds)

  not_yet : (j : ℕ) (ds : Table ApprovalDecision) → KeysBelow n ds → belongs_to j ds n ≡ false
  not_yet j [] h = refl
  not_yet j (row ∷ ds) h = ground (arith, not_yet j ds h.1)

  decided_rows-add_old :
      (j : ℕ) (ds : Table ApprovalDecision) (rows : List ApprovalDecisionIssue)
      → RowsBelow n rows
      → decided_rows j (add n d ds) rows ≡ decided_rows j ds rows
  unfolding decided_rows
  decided_rows-add_old j ds [] h = refl
  decided_rows-add_old j ds (r ∷ rows) h =
      ground (arith, belongs_to-add j r.approval_decision_id ds, decided_rows-add_old j ds rows h.1)

  decided_rows-add_new :
      (j : ℕ) (ds : Table ApprovalDecision) (ids : List ℕ)
      → KeysBelow n ds
      → decided_rows j (add n d ds) (map (decision_issue n) ids)
        ≡ (if d.approval_request_id == j then ids else [])
  unfolding decided_rows
  decided_rows-add_new j ds [] h = ground arith
  decided_rows-add_new j ds (i ∷ ids) h =
      ground (arith, belongs_to-add j n ds, not_yet j ds h, decided_rows-add_new j ds ids h)

  -- A decision on `ids` adds them to the issues of its own request, and to no other.
  pub decided_rows-decide :
      (j : ℕ) (ds : Table ApprovalDecision) (rows : List ApprovalDecisionIssue) (ids : List ℕ)
      → KeysBelow n ds
      → RowsBelow n rows
      → decided_rows j (add n d ds) (rows ++ map (decision_issue n) ids)
        ≡ decided_rows j ds rows ++ (if d.approval_request_id == j then ids else [])
  decided_rows-decide j ds rows ids hd hr = rw (
    decided_rows-append j (add n d ds) rows (map (decision_issue n) ids),
    decided_rows-add_old j ds rows hr,
    decided_rows-add_new j ds ids hd,
  )

pub KeysBelow-add :
    (n : ℕ) (d : ApprovalDecision) (ds : Table ApprovalDecision)
    → KeysBelow n ds
    → KeysBelow (n + 1) (add n d ds)
KeysBelow-add n d [] h = omega arith
KeysBelow-add n d (row ∷ ds) h = (omega arith, KeysBelow-add n d ds h.1)

new_rows-RowsBelow : (n : ℕ) (ids : List ℕ) → RowsBelow (n + 1) (map (decision_issue n) ids)
new_rows-RowsBelow n [] = tt
new_rows-RowsBelow n (i ∷ ids) = (omega arith, new_rows-RowsBelow n ids)

pub RowsBelow-add :
    (n : ℕ) (rows : List ApprovalDecisionIssue) (ids : List ℕ)
    → RowsBelow n rows
    → RowsBelow (n + 1) (rows ++ map (decision_issue n) ids)
RowsBelow-add n [] ids h = new_rows-RowsBelow n ids
RowsBelow-add n (r ∷ rows) ids h = (omega arith, RowsBelow-add n rows ids h.1)
