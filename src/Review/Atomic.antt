-- ===== src/Review/Atomic.antt =====
-- `bulk_action` is one transaction: a call that raises has written nothing.
use datacraft_backend.Prelude.{
  ℕ, ◌≡◌, refl, List, [], ◌∷◌, Option, none, some, lookup, inl, inr, ◌⊎◌, Bool-cases, Option-cases,
  arith, ◌∙◌,
}
use datacraft_backend.Core.Database.{Database}
use datacraft_backend.Core.Exceptions.{Error}
use datacraft_backend.Core.Session.{
  Session, Result, ok, err, Context, Transaction, call, ◌>>=◌, one_or_none, or_raise, ◌>>◌,
}
use datacraft_backend.Trail.Lineage.{record_edge}
use datacraft_backend.Models.Review.{Correction, is_ready_for_approval}
use datacraft_backend.Review.Writes.{
  check_not_terminal, corrections_of, existing_correction, get_issue, upsert_correction, Outcome,
  write_correction, set_issue_status,
}
use datacraft_backend.Review.Bulk.{
  BulkAction, check_issues, write_issues, bulk_action, bulk_outcome, bulk_status,
}

-- A transaction that does not commit.
abbrev Pending : {A : Type 0} → Transaction A → Type 0
Pending m = (s : Session) → (m s).1.committed ≡ s.committed

-- What follows a transaction that does not commit.
Pending-next :
    {A B : Type 0} (f : A → Transaction B) (r : Result A) (s s' : Session)
    → ((a : A) → Pending (f a))
    → s'.committed ≡ s.committed
    → (((λ _. (r, s')) >>= f) s).1.committed ≡ s.committed
Pending-next f (ok a) s s' hf h = hf a s' ∙ h
Pending-next f (err e) s s' hf h = h

Pending-bind :
    {A B : Type 0} (m : Transaction A) (f : A → Transaction B)
    → Pending m
    → ((a : A) → Pending (f a))
    → Pending (m >>= f)
Pending-bind m f hm hf s = Pending-next f (m s).0 s (m s).1 hf (hm s)

Pending-or_raise : {A : Type 0} (e : Error) (found : Option A) → Pending (or_raise e found)
Pending-or_raise e none s = refl
Pending-or_raise e (some a) s = refl

Pending-one_or_none : {A : Type 0} (rows : List A) → Pending (one_or_none rows)
Pending-one_or_none [] s = refl
Pending-one_or_none (a ∷ []) s = refl
Pending-one_or_none (a ∷ b ∷ rest) s = refl

Pending-check_not_terminal : (row : Option (ℕ × Correction)) → Pending (check_not_terminal row)
unfolding check_not_terminal
Pending-check_not_terminal none s = refl
Pending-check_not_terminal (some row) s = refl

Pending-existing_correction : (id : ℕ) → Pending (existing_correction id)
unfolding existing_correction
Pending-existing_correction id s = Pending-one_or_none (corrections_of id s.current.corrections) s

Pending-get_issue : (id : ℕ) → Pending (get_issue id)
unfolding get_issue
Pending-get_issue id s = Pending-or_raise _ (lookup id s.current.issues) s

Pending-check_issues : (ids : List ℕ) → Pending (check_issues ids)
unfolding check_issues
Pending-check_issues [] = λ s. refl
Pending-check_issues (id ∷ ids) =
    let checked : Option (ℕ × Correction) → Transaction (Unit {0}) =
      λ before. check_not_terminal before >> check_issues ids in
    Pending-bind (get_issue id) (λ _. existing_correction id >>= checked) (Pending-get_issue id)
      (λ _.
        Pending-bind (existing_correction id) checked (Pending-existing_correction id) (λ before.
          Pending-bind (check_not_terminal before) (λ _. check_issues ids)
            (Pending-check_not_terminal before) (λ _. Pending-check_issues ids)))

Pending-write_correction :
    (c : Context) (id : ℕ) (o : Outcome) (row : Option (ℕ × Correction))
    → Pending (write_correction c id o row)
unfolding record_edge
Pending-write_correction c id o none s = refl
Pending-write_correction c id o (some row) s = refl

Pending-upsert_correction :
    (c : Context) (id : ℕ) (o : Outcome) → Pending (upsert_correction c id o)
unfolding upsert_correction
Pending-upsert_correction c id o =
    Pending-bind (existing_correction id) (write_correction c id o) (Pending-existing_correction id)
      (Pending-write_correction c id o)

Pending-write_issues :
    (c : Context) (action : BulkAction) (ids : List ℕ) → Pending (write_issues c action ids)
unfolding write_issues
Pending-write_issues c action [] = λ s. refl
Pending-write_issues c action (id ∷ ids) =
    let set : Transaction (Unit {0}) = set_issue_status c id (bulk_status action) in
    Pending-bind (upsert_correction c id (bulk_outcome action))
      (λ _. set >> write_issues c action ids) (Pending-upsert_correction c id (bulk_outcome action))
      (λ _.
        Pending-bind set (λ _. write_issues c action ids) (λ s. refl)
          (λ _. Pending-write_issues c action ids))

Result-cases : (r : Result (Unit {0})) → (r ≡ ok tt) ⊎ ((e : Error) × (r ≡ err e))
Result-cases (ok tt) = inl refl
Result-cases (err e) = inr (e, refl)

-- A bulk action that raises, at whichever of its issues, leaves the database as it was.
pub bulk_atomic :
    (c : Context) (run_id : ℕ) (ids : List ℕ) (action : BulkAction) (db db' : Database) (e : Error)
    → call (bulk_action c run_id ids action) db ≡ (err e, db')
    → db' ≡ db
unfolding bulk_action
bulk_atomic c run_id ids action db db' e done =
    let s0 : Session = record { committed = db; current = db } in
    elim (Option-cases (lookup run_id db.review_runs)) [
      | inl n ↦ ground (arith, n, done)
      | inr (run, f) ↦ elim (Bool-cases (is_ready_for_approval run.status)) [
        | inl q ↦ ground (arith, f, q, done)
        | inr q ↦ elim (Result-cases (check_issues ids s0).0) [
          | inr (x, r) ↦ ground (arith, f, q, r, done, Pending-check_issues ids s0)
          | inl r ↦
              let s1 = (check_issues ids s0).1 in
              elim (Result-cases (write_issues c action ids s1).0) [
                | inr (x, w) ↦ ground (
                  arith,
                  f,
                  q,
                  r,
                  w,
                  done,
                  Pending-check_issues ids s0,
                  Pending-write_issues c action ids s1,
                )
                | inl w ↦ absurd (ground (arith, f, q, r, w, done))
              ]
        ]
      ]
    ]
