-- ===== src/Examples/Reviews.antt =====
-- Decisions on corrections, and the guards around them.
use datacraft_backend.Prelude.{ℕ, ◌≡◌, ◌≤◌, refl, arith, length, none, [], ◌∷◌}
use datacraft_backend.Core.Database.{Database}
use datacraft_backend.Core.Session.{ok, call}
use datacraft_backend.Core.Text.{codes, strip}
use datacraft_backend.Models.Review.{ReviewStatus, CorrectionStatus}
use datacraft_backend.Approval.Scope.{resolved_scope}
use datacraft_backend.Review.Writes.{rule_type_of, is_blank, corrections_of}
use datacraft_backend.Review.Decisions.{accept}
use datacraft_backend.Review.Effect.Calls.{accept_call, perform}
use datacraft_backend.Review.Invariant.{IsValid, perform-IsValid}
use datacraft_backend.Review.Frozen.{frozen_scope, terminal_final}
use datacraft_backend.Examples.Data.{reviewer, review_db, review_run, correction_on}

trims : strip (codes "\t a b \n") ≡ codes "a b"
unfolding strip
trims = refl

abbrev open_db : Database
open_db = review_db ReviewStatus.in_review

one_each : (k : ℕ) → length (corrections_of k open_db.corrections) ≤ 1
one_each k = ground arith

review_db-IsValid : (status : ReviewStatus) → IsValid (review_db status)
unfolding is_blank
review_db-IsValid status = record {
  issue_keys = refl;
  correction_keys = refl;
  corrections_below = omega arith;
  one_correction = one_each;
  usable = (λ _. refl, (λ _. refl, tt));
}

perform-IsValid_example : IsValid (call (perform reviewer (accept_call 40)) open_db).1
perform-IsValid_example =
    perform-IsValid reviewer (accept_call 40) open_db (review_db-IsValid ReviewStatus.in_review)

accepts : (call (accept reviewer 40) open_db).0 ≡ ok 100
unfolding accept rule_type_of
accepts = refl

frozen_scope_example :
    resolved_scope 10
      (call (perform reviewer (accept_call 40)) (review_db ReviewStatus.ready_for_approval)).1
    ≡ resolved_scope 10 (review_db ReviewStatus.ready_for_approval)
frozen_scope_example =
    frozen_scope reviewer (accept_call 40) (review_db ReviewStatus.ready_for_approval) 10
      (review_run ReviewStatus.ready_for_approval)
      (review_db-IsValid ReviewStatus.ready_for_approval) refl refl

abbrev skipped_db : Database
skipped_db = record open_db {
  corrections = (30, correction_on 22 CorrectionStatus.skipped none) ∷ [];
}

one_skipped : (k : ℕ) → length (corrections_of k skipped_db.corrections) ≤ 1
one_skipped k = ground arith

skipped_db-IsValid : IsValid skipped_db
skipped_db-IsValid = record {
  issue_keys = refl;
  correction_keys = refl;
  corrections_below = omega arith;
  one_correction = one_skipped;
  usable = (λ e. cc, tt);
}

terminal_final_example :
    corrections_of 22 (call (perform reviewer (accept_call 40)) skipped_db).1.corrections
    ≡ (30, correction_on 22 CorrectionStatus.skipped none) ∷ []
terminal_final_example =
    terminal_final reviewer (accept_call 40) skipped_db 22 30
      (correction_on 22 CorrectionStatus.skipped none) skipped_db-IsValid refl refl
