-- ===== src/Review/Invariant.antt =====
-- The well-formedness of issues and corrections, kept by every decision of
-- app/modules/review/decision_service.py.
use mathlib.Core.List.{append-nil}
use datacraft_backend.Prelude.{
  eq_of_beq, ℕ, ◌≤◌, ◌≡◌, refl, true, false, [], ◌∷◌, ◌++◌, Table, add, update, arith, ◌==◌, nat_eq,
  if◌then◌else◌, All, All-append, length, filter-append, filter-update, length-update, keys-update,
  UniqueKeys, UniqueKeys-add, inl, inr, Bool-cases,
}
use datacraft_backend.Core.Database.{
  Database, KeysBelow, lookup-KeysBelow, KeysBelow-next, KeysBelow-update,
}
use datacraft_backend.Core.Session.{Context, call}
use datacraft_backend.Models.Review.{Correction, IssueStatus}
use datacraft_backend.Approval.Scope.{is_resolving}
use datacraft_backend.Review.Writes.{is_blank, corrections_of, Outcome, first_correction, redecided}
use datacraft_backend.Review.Effect.{Decides, Written}
use datacraft_backend.Review.Effect.Calls.{DecisionCall, perform, perform-Decided}

-- An accepted or edited correction has a value that is not blank.
abbrev pub IsUsable : ℕ × Correction → Type 0
IsUsable (_, r) = is_resolving r.status ≡ true → is_blank r.final_value ≡ false

pub record IsValid (db : Database) : Type 0 where
  pub issue_keys : UniqueKeys db.issues
  pub correction_keys : UniqueKeys db.corrections
  pub corrections_below : KeysBelow db.next_id db.corrections
  pub one_correction : (k : ℕ) → length (corrections_of k db.corrections) ≤ 1
  pub usable : All IsUsable db.corrections

All-update :
    {R : Type 0} (P : ℕ × R → Type 0) (k : ℕ) (f : R → R) (t : Table R)
    → ((j : ℕ) (r : R) → P (j, f r))
    → All P t
    → All P (update k f t)
All-update P k f [] g h = tt
All-update P k f ((j, r) ∷ t) g h = elim (Bool-cases (j == k)) [
  | inl e ↦ rw e (g j r, All-update P k f t g h.1)
  | inr e ↦ rw e (h.0, All-update P k f t g h.1)
]

module _ (c : Context) (k : ℕ) (o : Outcome) where
  pub corrections_of-add :
      (j n : ℕ) (t : Table Correction)
      → corrections_of j (add n (first_correction c k o) t)
        ≡ corrections_of j t ++ (if k == j then (n, first_correction c k o) ∷ [] else [])
  corrections_of-add j n t = rw filter-append refl

  corrections_of-update :
      (j id : ℕ) (t : Table Correction)
      → corrections_of j (update id (redecided c o) t)
        ≡ update id (redecided c o) (corrections_of j t)
  corrections_of-update j id t = filter-update _ id (redecided c o) t (λ i r. refl)

  one_after_add :
      (n j : ℕ) (t : Table Correction)
      → corrections_of k t ≡ []
      → length (corrections_of j t) ≤ 1
      → length (corrections_of j (add n (first_correction c k o) t)) ≤ 1
  one_after_add n j t e h = rw (corrections_of-add j n t) (elim (Bool-cases (k == j)) [
    | inl e1 ↦
        let none_before : corrections_of j t ≡ [] = rw (← eq_of_beq k j e1) e in
        rw (e1, none_before) (omega arith)
    | inr e1 ↦ rw (e1, append-nil) h
  ])

module _ (c : Context) (k : ℕ) (o : Outcome) (st : IssueStatus) (db db' : Database) where
  IsValid-after :
      Written c k o db db'
      → UniqueKeys db'.issues
      → (is_resolving o.status ≡ true → is_blank o.final_value ≡ false)
      → IsValid db
      → IsValid db'
  IsValid-after (inl (e, added, next)) keys ok v = record {
    issue_keys = keys;
    correction_keys = rw added (
        UniqueKeys-add db.next_id (first_correction c k o) db.corrections v.correction_keys
          (lookup-KeysBelow db.next_id db.corrections v.corrections_below));
    corrections_below =
        rw (added, next)
          (KeysBelow-next db.next_id (first_correction c k o) db.corrections v.corrections_below);
    one_correction =
        λ j. rw added (one_after_add c k o db.next_id j db.corrections e (v.one_correction j));
    usable = rw added (All-append IsUsable db.corrections _ v.usable (ok, tt));
  }
  IsValid-after (inr (id, row, e, open_before, updated, next)) keys ok v = record {
    issue_keys = keys;
    correction_keys = rw (updated, keys-update) v.correction_keys;
    corrections_below =
        rw (updated, next)
          (KeysBelow-update db.next_id id (redecided c o) db.corrections v.corrections_below);
    one_correction = λ j.
        rw (updated, corrections_of-update c k o j id db.corrections, length-update)
          (v.one_correction j);
    usable =
        rw updated (All-update IsUsable id (redecided c o) db.corrections (λ _ _. ok) v.usable);
  }

  Decides-IsValid : Decides c k o st db db' → IsValid db → IsValid db'
  Decides-IsValid d v =
      IsValid-after d.written (rw (d.issues_after, keys-update) v.issue_keys) d.usable v

-- Whichever of the five calls that decide one issue is made, and whether or not it raises, a
-- well-formed database stays well-formed.
pub perform-IsValid :
    (c : Context) (d : DecisionCall) (db : Database)
    → IsValid db
    → IsValid (call (perform c d) db).1
perform-IsValid c d db v = elim (perform-Decided c d db) [
  | inl (_, _, same) ↦ rw same v
  | inr (k, o, st, e) ↦ Decides-IsValid c k o st db (call (perform c d) db).1 e v
]
