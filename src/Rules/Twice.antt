-- ===== src/Rules/Twice.antt =====
-- A cross-column assignment is refused when its columns are assigned in whatever order.
use mathlib.Core.List.{Permᴰ}
use datacraft_backend.Prelude.{
  ℕ, ◌≡◌, inl, inr, refl, sym, ap, ◌∙◌, Bool, true, not, ◌||◌, List, [], ◌∷◌, Option, none, some,
  arith, Table, lookup, add, nat_eq, string_eq, option_eq, beq_refl, any, all, is_empty,
}
use datacraft_backend.Core.Database.{Database}
use datacraft_backend.Core.Exceptions.{app, duplicate_rule_assignment}
use datacraft_backend.Core.Session.{Context, ok, err, call}
use datacraft_backend.Core.Text.{Text, text_eq}
use datacraft_backend.Models.Rules.{RuleVersion, RuleAssignment, Dataset}
use datacraft_backend.Rules.Assignments.{
  create_assignment, new_assignment, is_same_assignment, has_scope_shape, has_two, is_column_of,
  cross_column_key,
}
use datacraft_backend.Rules.CrossColumn.{cross_column_key-Permᴰ}
use datacraft_backend.Rules.Assigned.{create_assignment_effect}

module _ {A : Type 0} where
  any-add :
      (p : ℕ × A → Bool) (k : ℕ) (a : A) (t : Table A) → any p (add k a t) ≡ (any p t || p (k, a))
  any-add p k a [] = ground arith
  any-add p k a (row ∷ t) = ground (arith, any-add p k a t)

  all-Permᴰ : (p : A → Bool) {xs ys : List A} → Permᴰ xs ys → all p xs ≡ all p ys
  all-Permᴰ p Permᴰ.nil = refl
  all-Permᴰ p (Permᴰ.cons e q) = ground (arith, e, all-Permᴰ p q)
  all-Permᴰ p (Permᴰ.swap e g) = ground (arith, e, g)
  all-Permᴰ p (Permᴰ.trans q r) = all-Permᴰ p q ∙ all-Permᴰ p r

is_empty-Permᴰ : {xs ys : List ℕ} → Permᴰ xs ys → is_empty xs ≡ is_empty ys
is_empty-Permᴰ Permᴰ.nil = refl
is_empty-Permᴰ (Permᴰ.cons e q) = refl
is_empty-Permᴰ (Permᴰ.swap e g) = refl
is_empty-Permᴰ (Permᴰ.trans q r) = is_empty-Permᴰ q ∙ is_empty-Permᴰ r

has_two_cons : (x : ℕ) (xs : List ℕ) → has_two (x ∷ xs) ≡ not (is_empty xs)
has_two_cons x [] = refl
has_two_cons x (y ∷ xs) = refl

has_two-Permᴰ : {xs ys : List ℕ} → Permᴰ xs ys → has_two xs ≡ has_two ys
has_two-Permᴰ Permᴰ.nil = refl
has_two-Permᴰ (Permᴰ.cons {a} {b} {l₁} {l₂} e q) =
    has_two_cons a l₁ ∙ ap not (is_empty-Permᴰ q) ∙ sym (has_two_cons b l₂)
has_two-Permᴰ (Permᴰ.swap e g) = refl
has_two-Permᴰ (Permᴰ.trans q r) = has_two-Permᴰ q ∙ has_two-Permᴰ r

module _ (str : ℕ → Text) (c c' : Context) (version_id dataset_id : ℕ) (ids ids' : List ℕ)
    (template_id : Option ℕ) (reordered : Permᴰ ids ids') where
  abbrev first : RuleAssignment
  first =
      new_assignment c version_id dataset_id "CROSS_COLUMN" none (some (cross_column_key str ids))
        template_id

  abbrev again : RuleAssignment
  again =
      new_assignment c' version_id dataset_id "CROSS_COLUMN" none (some (cross_column_key str ids'))
        template_id

  same_row : (k : ℕ) → is_same_assignment again (k, first) ≡ true
  same_row k = ground (
    arith,
    beq_refl version_id,
    beq_refl dataset_id,
    beq_refl template_id,
    cross_column_key-Permᴰ str reordered,
    beq_refl (cross_column_key str ids),
  )

  refused :
      (db : Database) (version : RuleVersion) (dataset : Dataset)
      → lookup version_id db.rule_versions ≡ some version
      → lookup dataset_id db.datasets ≡ some dataset
      → has_two ids' ≡ true
      → all (is_column_of dataset_id db.columns) ids' ≡ true
      → any (is_same_assignment again) db.rule_assignments ≡ true
      → call
          (create_assignment str c' version_id dataset_id "CROSS_COLUMN" none
            (some ids')
            template_id)
          db
        ≡ (err (app duplicate_rule_assignment), db)
  unfolding create_assignment
  refused db version dataset v d two own same = ground arith

  -- When the columns `ids` of a dataset were assigned to a rule version as CROSS_COLUMN, the same
  -- columns in another order are refused with DuplicateRuleAssignmentError, and nothing changes.
  pub create_assignment_again :
      (db db' : Database) (id : ℕ)
      → call
          (create_assignment str c version_id dataset_id "CROSS_COLUMN" none (some ids) template_id)
          db
        ≡ (ok id, db')
      → call
          (create_assignment str c' version_id dataset_id "CROSS_COLUMN" none
            (some ids')
            template_id)
          db'
        ≡ (err (app duplicate_rule_assignment), db')
  unfolding has_scope_shape
  create_assignment_again db db' id created =
      elim (create_assignment_effect str c version_id dataset_id "CROSS_COLUMN" none (some ids)
        template_id db) [
          | inl (e, raised) ↦ absurd (cc (created, raised))
          | inr a ↦
              let after = ap (λ outcome. outcome.1) created in
              let own : all (is_column_of dataset_id db.columns) ids ≡ true =
                ground (arith, a.own_columns) in
              refused db' a.version a.dataset
                (ap (λ d. lookup version_id d.rule_versions) (sym after)
                  ∙ ap (lookup version_id) a.versions_after
                  ∙ a.version_known)
                (ap (λ d. lookup dataset_id d.datasets) (sym after)
                  ∙ ap (lookup dataset_id) a.datasets_after
                  ∙ a.dataset_known)
                (sym (has_two-Permᴰ reordered) ∙ a.shape)
                (ap (λ d. all (is_column_of dataset_id d.columns) ids') (sym after)
                  ∙ ap (λ cols. all (is_column_of dataset_id cols) ids') a.columns_after
                  ∙ sym (all-Permᴰ (is_column_of dataset_id db.columns) reordered)
                  ∙ own)
                (ap (λ d. any (is_same_assignment again) d.rule_assignments) (sym after)
                  ∙ ap (any (is_same_assignment again)) a.assigned
                  ∙ any-add (is_same_assignment again) db.next_id first db.rule_assignments
                  ∙ ground (arith, same_row db.next_id))
        ]
