-- ===== src/Examples/Rules.antt =====
-- A rule with one version, one that awaits review, and assignments of them.
use mathlib.Core.List.{Permᴰ}
use datacraft_backend.Prelude.{
  ℕ, ◌≡◌, ◌⊎◌, refl, false, [], ◌∷◌, none, some, arith, lookup, nat_eq, string_eq, option_eq,
  pair_eq,
}
use datacraft_backend.Core.Database.{Database}
use datacraft_backend.Core.Exceptions.{app, duplicate_rule_assignment}
use datacraft_backend.Core.Session.{ok, err, call}
use datacraft_backend.Core.Text.{Text, codes}
use datacraft_backend.Models.Rules.{RuleStatus}
use datacraft_backend.Rules.Assignments.{
  create_assignment, cross_column_key, sorted, insert_sorted, text_lt,
}
use datacraft_backend.Rules.Service.{publish_version, resolve_promotion_assignment, promote_rule}
use datacraft_backend.Staging.RecordRef.{join}
use datacraft_backend.Rules.Calls.{RuleCall, publish_call, after_call}
use datacraft_backend.Rules.Versions.{IsVersioned, after_call-IsVersioned}
use datacraft_backend.Rules.Promotion.{Raised, Promoted, promote_effect}
use datacraft_backend.Rules.Twice.{create_assignment_again}
use datacraft_backend.Examples.Data.{reviewer, empty_db, completeness, first_version}

-- rule 91 was detected on column 6 of dataset 3
abbrev detected_db : Database
detected_db = record empty_db {
  rules =
      (90, completeness)
      ∷ (
        91,
        record completeness { name = codes "no empty region"; status = RuleStatus.pending_review },
      )
      ∷ [];
  rule_versions =
      (80, first_version)
      ∷ (
        81,
        record first_version {
          rule_id = 91;
          definition = record {
            detected_for = some (record { dataset_id = some 3; column_id = some 6 });
            parameters = codes "{}";
          };
        },
      )
      ∷ [];
}

detected_db-IsVersioned : IsVersioned detected_db
detected_db-IsVersioned = record {
  rules_below = (omega arith, (omega arith, tt));
  versions_below = (omega arith, (omega arith, tt));
  owners_below = (omega arith, (omega arith, tt));
  version_keys = refl;
  one_current = (refl, (refl, tt));
}

abbrev second_version : RuleCall
second_version =
    publish_call 90 (record { detected_for = none; parameters = codes "{}" }) "LOW" none

after_call-IsVersioned_example : IsVersioned (after_call reviewer second_version detected_db)
after_call-IsVersioned_example =
    after_call-IsVersioned reviewer second_version detected_db detected_db-IsVersioned

-- version 80 of rule 90 is retired
publishes :
    lookup 80 (after_call reviewer second_version detected_db).rule_versions
    ≡ some (record first_version { is_current = false })
unfolding publish_version
publishes = refl

promote_effect_example :
    Raised detected_db (call (promote_rule reviewer 91) detected_db)
    ⊎ Promoted reviewer 91 detected_db (call (promote_rule reviewer 91) detected_db)
promote_effect_example = promote_effect reviewer 91 detected_db

promotes : (call (promote_rule reviewer 91) detected_db).0 ≡ ok tt
unfolding promote_rule resolve_promotion_assignment
promotes = refl

-- Python's `str` on these identifiers
abbrev str : ℕ → Text
str n = n ∷ []

abbrev assigned_db : Database
assigned_db =
    (call (create_assignment str reviewer 80 3 "CROSS_COLUMN" none (some (5 ∷ 6 ∷ [])) none)
      empty_db).1

assigns :
    call (create_assignment str reviewer 80 3 "CROSS_COLUMN" none (some (5 ∷ 6 ∷ [])) none) empty_db
    ≡ (ok 100, assigned_db)
unfolding create_assignment cross_column_key sorted insert_sorted text_lt join
assigns = refl

create_assignment_again_example :
    call
      (create_assignment str reviewer 80 3 "CROSS_COLUMN" none (some (6 ∷ 5 ∷ [])) none)
      assigned_db
    ≡ (err (app duplicate_rule_assignment), assigned_db)
create_assignment_again_example =
    create_assignment_again str reviewer reviewer 80 3 (5 ∷ 6 ∷ []) (6 ∷ 5 ∷ []) none
      (Permᴰ.swap refl refl) empty_db assigned_db 100 assigns
